-- ===== src/Monitor/Delivery/Leases.antt =====
-- A tick of the delivery worker leaves no lease of its batch behind.
use mathlib.Core.Path.{subst}
use tail_state.Prelude.{
  Bool-cases, Every, List, [], arith, contains, false, if◌then◌else◌, inl, inr, nat_eq, refl,
  some_of, string_eq, sym, true, ℕ, ◌∷◌, ◌≡◌,
}
use tail_state.Text.{Text, text_eq, text_ordered}
use tail_state.Store.Table.{some_of-update_where, some_of-update_where_fails}
use tail_state.Store.Outbox.{OutboxRow}
use tail_state.Store.Outbox.Finish.{is_unclaimed, owns, release_claimed, update_claimed}
use tail_state.Store.Outbox.Fence.{
  Action, act, act-update_claimed, complete, give_back, retry, row_after, row_after-ends,
}
use tail_state.Monitor.Delivery.{
  Outcome, Worker, deliver_item, deliver_items, record_outcome, refused, retry_item, sent,
  unprepared,
}

-- An action on an item leaves nothing that the item owns.
act-disowns :
    (safe : Text → Text) (a : Action) (item : OutboxRow) (rows : List OutboxRow)
    → is_unclaimed item ≡ false
    → some_of (owns item) (act safe a item rows).1 ≡ false
act-disowns safe a item rows claimed = rw (act-update_claimed safe a item rows) (
    unfold update_claimed in
    rw claimed (
      some_of-update_where (owns item) (owns item) (row_after safe a) rows
        (λ o h. ground (arith, row_after-ends safe a o)) (λ o h. h)))

-- Nor does an action on any item make another own a row that it did not own.
act-keeps_disowned :
    (safe : Text → Text) (a : Action) (item other : OutboxRow) (rows : List OutboxRow)
    → some_of (owns other) rows ≡ false
    → some_of (owns other) (act safe a item rows).1 ≡ false
act-keeps_disowned safe a item other rows free = rw (act-update_claimed safe a item rows) (
    unfold update_claimed in
    elim (Bool-cases (is_unclaimed item)) [
      | inl unclaimed ↦ rw unclaimed free
      | inr claimed ↦ rw claimed (
          some_of-update_where_fails (owns other) (owns item) (owns other) (row_after safe a) rows
            (λ o h. ground (arith, h, row_after-ends safe a o)) free)
    ])

-- What the worker does to the outbox once it has sent an item is one of its actions.
act-of_outcome :
    (w : Worker) (item : OutboxRow) (o : Outcome) (rows : List OutboxRow)
    → (a : Action) × ((record_outcome w item o rows).1 ≡ (act w.safe_message a item rows).1)
unfolding record_outcome retry_item act
act-of_outcome w item sent rows = (complete (w.clock item), refl)
act-of_outcome w item (unprepared message) rows = (retry _ _ _, refl)
act-of_outcome w item (refused message permanent retry_after) rows = (retry _ _ _, refl)

act-of_item :
    (w : Worker) (item : OutboxRow) (rows : List OutboxRow)
    → (a : Action) × ((deliver_item w item rows).1 ≡ (act w.safe_message a item rows).1)
unfolding deliver_item
act-of_item w item rows = act-of_outcome w item (w.send item) rows

deliver_items-held :
    (w : Worker) (failed : List ℕ) (item : OutboxRow) (items rows : List OutboxRow)
    → contains failed item.destination_id ≡ true
    → (deliver_items w failed (item ∷ items) rows).1
      ≡ (deliver_items w failed items (release_claimed item rows).1).1
unfolding deliver_items
deliver_items-held w failed item items rows h = rw h refl

deliver_items-tried :
    (w : Worker) (failed : List ℕ) (item : OutboxRow) (items rows : List OutboxRow)
    → contains failed item.destination_id ≡ false
    → let outcome = deliver_item w item rows in
      (deliver_items w failed (item ∷ items) rows).1
      ≡ (deliver_items w
          (if outcome.0 then item.destination_id ∷ failed else failed)
          items
          outcome.1).1
unfolding deliver_items
deliver_items-tried w failed item items rows h = rw h refl

-- None of the items owns a row.
abbrev pub Disowned : List OutboxRow → List OutboxRow → Type 0
Disowned items rows = Every (λ item. some_of (owns item) rows ≡ false) items

-- The outbox after the loop, seen as one action after another.
step-disowns :
    (w : Worker) (failed : List ℕ) (items rows : List OutboxRow) (other : OutboxRow)
    → some_of (owns other) rows ≡ false
    → some_of (owns other) (deliver_items w failed items rows).1 ≡ false
unfolding deliver_items
step-disowns w failed [] rows other free = free
step-disowns w failed (item ∷ items) rows other free =
    elim (Bool-cases (contains failed item.destination_id)) [
      | inl held ↦ rw held (
          step-disowns w failed items (release_claimed item rows).1 other
            (unfold act in act-keeps_disowned w.safe_message give_back item other rows free))
      | inr open_ ↦
          let outcome = deliver_item w item rows in
          let (a, done) = act-of_item w item rows in
          rw open_ (
            step-disowns w (if outcome.0 then item.destination_id ∷ failed else failed) items
              outcome.1 other (rw done (act-keeps_disowned w.safe_message a item other rows free)))
    ]

-- After a tick, none of its claimed items owns a row: each was delivered, requeued, given up or
-- released.
pub deliver_items-Disowned :
    (w : Worker) (failed : List ℕ) (items rows : List OutboxRow)
    → Every (λ item. is_unclaimed item ≡ false) items
    → Disowned items (deliver_items w failed items rows).1
deliver_items-Disowned w failed [] rows h = tt
deliver_items-Disowned w failed (item ∷ items) rows h =
    elim (Bool-cases (contains failed item.destination_id)) [
      | inl held ↦
          let rows' = (release_claimed item rows).1 in
          subst (Disowned (item ∷ items)) (sym (deliver_items-held w failed item items rows held)) (
            step-disowns w failed items rows' item
                (unfold act in act-disowns w.safe_message give_back item rows h.0),
            deliver_items-Disowned w failed items rows' h.1,
          )
      | inr free ↦
          let outcome = deliver_item w item rows in
          let (a, done) = act-of_item w item rows in
          let failed' = if outcome.0 then item.destination_id ∷ failed else failed in
          subst (Disowned (item ∷ items)) (sym (deliver_items-tried w failed item items rows free))
            (
              step-disowns w failed' items outcome.1 item
                  (rw done (act-disowns w.safe_message a item rows h.0)),
              deliver_items-Disowned w failed' items outcome.1 h.1,
            )
    ]
