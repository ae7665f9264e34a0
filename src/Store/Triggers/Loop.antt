-- ===== src/Store/Triggers/Loop.antt =====
-- The loop of `ClaimWebhookTriggers`: what each claim is made of, and the row that it leaves.
use tail_state.Store.Triggers.{Trigger, has_id, is_pending, lease_row}
use tail_state.Prelude.{
  List, Option, Option-cases, [], arith, false, if◌then◌else◌, inl, inr, length, nat_beq, nat_eq,
  refl, some, string_eq, suc, true, ℕ, ◌&&◌, ◌∷◌, ◌≡◌,
}
use tail_state.Text.{Text, text_eq, text_ordered}
use tail_state.Store.Triggers.Rows.{AllRows, DistinctIds, row_of, row_of-update_id}
use tail_state.Store.Triggers.Claim.{lease_selected}
use tail_state.Store.Table.{update_where}

-- Inversion of one round of the loop.
leased_head :
    (until : ℕ) (tokens : ℕ → Option Text) (i : ℕ) (t : Trigger)
    (selected rows claims rows' : List Trigger)
    → lease_selected until tokens i (t ∷ selected) rows ≡ some (claims, rows')
    → (token : Text) × (rest : List Trigger) × (claims ≡ lease_row until token t ∷ rest)
      × (lease_selected until tokens
            (suc i)
            selected
            (update_where (λ r. has_id t.id r && is_pending r.status) (lease_row until token) rows)
          ≡ some (rest, rows'))
unfolding lease_selected
leased_head until tokens i t selected rows claims rows' h = elim (Option-cases (tokens i)) [
  | inl unmade ↦ absurd (ground (arith, h, unmade))
  | inr (token, made) ↦
      let between =
        update_where (λ r. has_id t.id r && is_pending r.status) (lease_row until token) rows in
      elim (Option-cases (lease_selected until tokens (suc i) selected between)) [
        | inl stopped ↦ absurd (ground (arith, h, made, stopped))
        | inr ((rest, rows_end), went_on) ↦
            (token, rest, ground (arith, h, made, went_on), ground (arith, h, made, went_on))
      ]
]

-- Its UPDATE leases the row of the id, and no other.
row_of-lease_pending :
    (until : ℕ) (token : Text) (id j : ℕ) (r : Trigger) (rows : List Trigger)
    → row_of j rows ≡ some r
    → row_of j (update_where (λ q. has_id id q && is_pending q.status) (lease_row until token) rows)
      ≡ some (if nat_beq j id && is_pending r.status then lease_row until token r else r)
row_of-lease_pending until token id j r rows found = ground (
  arith,
  found,
  row_of-update_id (λ q. is_pending q.status) (lease_row until token) id j rows (λ q. refl),
)

-- A row that is leased stays as it is.
lease_selected-keeps :
    (until : ℕ) (tokens : ℕ → Option Text) (i j : ℕ) (r : Trigger)
    (selected rows claims rows' : List Trigger)
    → lease_selected until tokens i selected rows ≡ some (claims, rows')
    → row_of j rows ≡ some r
    → is_pending r.status ≡ false
    → row_of j rows' ≡ some r
lease_selected-keeps until tokens i j r [] rows claims rows' h found leased =
    let same : rows ≡ rows' = unfold lease_selected in cc h in rw (← same) found
lease_selected-keeps until tokens i j r (t ∷ selected) rows claims rows' h found leased =
    let (token, rest, head, tail) = leased_head until tokens i t selected rows claims rows' h in
    lease_selected-keeps until tokens (suc i) j r selected _ rest rows' tail
      (ground (arith, leased, row_of-lease_pending until token t.id j r rows found)) leased

-- A selected trigger whose row is in the table, pending.
pub record IsWaiting (rows : List Trigger) (s : Trigger) : Type 0 where
  pub row : Trigger
  pub found : row_of s.id rows ≡ some row
  pub is_free : is_pending row.status ≡ true
  pub same_attempts : row.attempts ≡ s.attempts

-- Leasing one row leaves the others waiting.
IsWaiting-others :
    (until : ℕ) (token : Text) (id : ℕ) (selected rows : List Trigger)
    → AllRows (λ r. has_id id r ≡ false) selected
    → AllRows (IsWaiting rows) selected
    → AllRows
        (IsWaiting
          (update_where (λ q. has_id id q && is_pending q.status) (lease_row until token) rows))
        selected
IsWaiting-others until token id [] rows other h = tt
IsWaiting-others until token id (s ∷ selected) rows other h = (
  record {
    row = h.0.row;
    found =
        ground (arith, other.0, row_of-lease_pending until token id s.id h.0.row rows h.0.found);
    is_free = h.0.is_free;
    same_attempts = h.0.same_attempts;
  },
  IsWaiting-others until token id selected rows other.1 h.1,
)

-- A claim of the loop: the trigger it was made of, and the row that it leaves.
pub record IsClaim (until : ℕ) (P : Trigger → Type 0) (rows' : List Trigger) (c : Trigger)
    : Type 0 where
  pub trigger : Trigger
  pub token : Text
  pub had : P trigger
  pub is : c ≡ lease_row until token trigger
  pub row : Trigger
  pub found : row_of c.id rows' ≡ some (lease_row until token row)
  pub same_attempts : row.attempts ≡ trigger.attempts

pub IsClaim-claims :
    (P : Trigger → Type 0) (until : ℕ) (tokens : ℕ → Option Text) (i : ℕ)
    (selected rows claims rows' : List Trigger)
    → lease_selected until tokens i selected rows ≡ some (claims, rows')
    → DistinctIds selected
    → AllRows P selected
    → AllRows (IsWaiting rows) selected
    → (length claims ≡ length selected) × AllRows (IsClaim until P rows') claims
IsClaim-claims P until tokens i [] rows claims rows' h distinct all waiting =
    let none_made : [] ≡ claims = unfold lease_selected in cc h in rw (← none_made) (refl, tt)
IsClaim-claims P until tokens i (t ∷ selected) rows claims rows' h distinct all waiting =
    let (token, rest, head, tail) = leased_head until tokens i t selected rows claims rows' h in
    let between =
      update_where (λ r. has_id t.id r && is_pending r.status) (lease_row until token) rows in
    let w = waiting.0 in
    let here : row_of t.id between ≡ some (lease_row until token w.row) =
      ground (arith, w.is_free, row_of-lease_pending until token t.id t.id w.row rows w.found) in
    let (count, others) =
      IsClaim-claims P until tokens (suc i) selected between rest rows' tail distinct.1 all.1
        (IsWaiting-others until token t.id selected rows distinct.0 waiting.1) in
    rw head (
      omega (arith, count),
      (
        record {
          trigger = t;
          token = token;
          had = all.0;
          is = refl;
          row = w.row;
          found =
              lease_selected-keeps until tokens (suc i) t.id (lease_row until token w.row) selected
                between rest rows' tail here refl;
          same_attempts = w.same_attempts;
        },
        others,
      ),
    )
