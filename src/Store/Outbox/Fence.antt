-- ===== src/Store/Outbox/Fence.antt =====
-- A delivery attempt is finished at most once.
use tail_state.Prelude.{
  Bool, Bool-cases, List, arith, false, inl, inr, nat_eq, refl, some_of, string_eq, true, ℕ, ◌∙◌,
  ◌≡◌,
}
use tail_state.Text.{Text, text_eq, text_ordered}
use tail_state.Store.Table.{some_of-update_where, update_where, update_where-none}
use tail_state.Store.Outbox.{OutboxRow, is_sending}
use tail_state.Store.Outbox.Finish.{
  delivered_claimed, delivered_row, is_unclaimed, owns, release_claimed, released_row,
  renew_claimed, renewed_row, retried_row, retry_claimed_result, update_claimed,
}
use tail_state.Text.Truncate.{truncate}

-- What a worker does with a claimed notification.
pub data Action : Type 0 where
  complete : ℕ → Action
  retry : ℕ → Text → Bool → Action
  give_back : Action

-- What each action does to the outbox, and whether the lease still owned the row.
unfoldable pub act : (Text → Text) → Action → OutboxRow → List OutboxRow → Bool × List OutboxRow
unfolding delivered_claimed retry_claimed_result release_claimed
act safe (complete now) item rows = delivered_claimed now item rows
act safe (retry next message lost) item rows = retry_claimed_result safe next message lost item rows
act safe give_back item rows = release_claimed item rows

-- An UPDATE of a claimed row that nothing owns changes nothing and says so.
pub update_claimed-disowned :
    (item : OutboxRow) (set : OutboxRow → OutboxRow) (rows : List OutboxRow)
    → some_of (owns item) rows ≡ false
    → update_claimed item set rows ≡ (false, rows)
unfolding update_claimed
update_claimed-disowned item set rows free = elim (Bool-cases (is_unclaimed item)) [
  | inl unclaimed ↦ rw unclaimed refl
  | inr claimed ↦
      let (none_counted, same) = update_where-none (owns item) set rows free in
      rw claimed (rw none_counted (rw same refl))
]

-- After an UPDATE that leaves its rows not in sending, a second one changes nothing and says so.
update_claimed-again :
    (item : OutboxRow) (set set' : OutboxRow → OutboxRow) (rows : List OutboxRow)
    → ((o : OutboxRow) → is_sending (set o).status ≡ false)
    → let rows' = (update_claimed item set rows).1 in
      update_claimed item set' rows' ≡ (false, rows')
unfolding update_claimed
update_claimed-again item set set' rows ends = elim (Bool-cases (is_unclaimed item)) [
  | inl unclaimed ↦ rw unclaimed refl
  | inr claimed ↦
      let free =
        some_of-update_where (owns item) (owns item) set rows (λ o h. ground (arith, ends o))
          (λ o h. h) in
      let (none_counted, same) =
        update_where-none (owns item) set' (update_where (owns item) set rows) free in
      rw claimed (rw none_counted (rw same refl))
]

-- The row that each action leaves.
pub row_after : (Text → Text) → Action → OutboxRow → OutboxRow
row_after safe (complete now) o = delivered_row now o
row_after safe (retry next message lost) o = retried_row next (truncate (safe message) 500) lost o
row_after safe give_back o = released_row o

pub act-update_claimed :
    (safe : Text → Text) (a : Action) (item : OutboxRow) (rows : List OutboxRow)
    → act safe a item rows ≡ update_claimed item (row_after safe a) rows
unfolding act delivered_claimed retry_claimed_result release_claimed row_after
act-update_claimed safe (complete now) item rows = refl
act-update_claimed safe (retry next message lost) item rows = refl
act-update_claimed safe give_back item rows = refl

pub row_after-ends :
    (safe : Text → Text) (a : Action) (o : OutboxRow)
    → is_sending (row_after safe a o).status ≡ false
unfolding row_after
row_after-ends safe (complete now) o = refl
row_after-ends safe (retry next message true) o = refl
row_after-ends safe (retry next message false) o = refl
row_after-ends safe give_back o = refl

-- An attempt that a worker completed, gave up or gave back cannot be finished, given back or renewed
-- by its item a second time: each further call reports that it lost the lease and changes nothing.
pub act-once :
    (safe : Text → Text) (first : Action) (item : OutboxRow) (rows : List OutboxRow)
    → let rows' = (act safe first item rows).1 in
      ((second : Action) → act safe second item rows' ≡ (false, rows'))
      × ((now lease : ℕ) → renew_claimed now lease item rows' ≡ (false, rows'))
unfolding renew_claimed
act-once safe first item rows =
    let after = row_after safe first in
    let ends = row_after-ends safe first in
    rw (act-update_claimed safe first item rows) (
      (λ second.
          act-update_claimed safe second item _
          ∙ update_claimed-again item after (row_after safe second) rows ends),
      (λ now lease. update_claimed-again item after (renewed_row _) rows ends),
    )
