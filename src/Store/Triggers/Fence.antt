-- ===== src/Store/Triggers/Fence.antt =====
-- A worker finishes only the attempt whose lease it holds.
use tail_state.Prelude.{
  Bool-cases, List, Option, Option-cases, [], ap, arith, contains, false, if◌then◌else◌, inl, inr,
  is_empty, nat_beq, nat_eq, none, refl, some, string_eq, sym, true, ℕ, ◌+◌, ◌<◌, ◌||◌, ◌∙◌, ◌∷◌,
  ◌≡◌,
}
use tail_state.Text.{Text, eq_text, text_eq, text_ordered, trim_space}
use tail_state.Store.Triggers.{Trigger, is_due, lease_or_default, lease_row, processing}
use tail_state.Store.Triggers.Rows.{
  AllRows, DistinctIds, KeepsId, map_row, row_of, row_of-update_where, row_passes,
}
use tail_state.Store.Triggers.Finish.{
  complete_claimed, complete_each, complete_row, holds_lease, retry_claimed, retry_each, retry_row,
  valid_claims,
}
use tail_state.Store.Triggers.Lease.{
  claim-DistinctIds, claim-refines, claim_row, is_claimed, is_leasable, reclaimed,
}
use tail_state.Store.Triggers.Claim.{claim_webhook_trigger}
use tail_state.Store.Table.{update_where}

-- None of the claims holds the lease of the row.
abbrev pub NoneHolds : List Trigger → Trigger → Type 0
NoneHolds claims t = AllRows (λ c. holds_lease c t ≡ false) claims

AllRows-valid_claims :
    (P : Trigger → Type 0) (seen : List ℕ) (claims : List Trigger)
    → AllRows P claims
    → AllRows P (valid_claims seen claims)
unfolding valid_claims
AllRows-valid_claims P seen [] h = tt
AllRows-valid_claims P seen (c ∷ claims) h =
    elim (Bool-cases
      (nat_beq c.id 0 || is_empty (trim_space c.lease_token) || contains seen c.id)) [
        | inl dropped ↦ rw dropped (AllRows-valid_claims P seen claims h.1)
        | inr kept ↦ rw kept (h.0, AllRows-valid_claims P (c.id ∷ seen) claims h.1)
      ]

-- An UPDATE guarded by the lease leaves a row alone that the claim does not hold.
row_of-update_held :
    (claim : Trigger) (set : Trigger → Trigger) (j : ℕ) (t : Trigger) (rows : List Trigger)
    → KeepsId set
    → row_of j rows ≡ some t
    → holds_lease claim t ≡ false
    → row_of j (update_where (holds_lease claim) set rows) ≡ some t
row_of-update_held claim set j t rows keeps found free =
    ground (arith, row_of-update_where (holds_lease claim) set j rows keeps, found, free)

complete_each-fences :
    (now j : ℕ) (t : Trigger) (claims rows : List Trigger)
    → row_of j rows ≡ some t
    → NoneHolds claims t
    → row_of j (complete_each now claims rows) ≡ some t
unfolding complete_each
complete_each-fences now j t [] rows found free = found
complete_each-fences now j t (c ∷ claims) rows found free =
    complete_each-fences now j t claims (update_where (holds_lease c) (complete_row now) rows)
      (row_of-update_held c (complete_row now) j t rows (λ r. refl) found free.0) free.1

retry_row-id :
    (now next : ℕ) (message : Text) (received_at : ℕ) (t : Trigger)
    → (retry_row now next message received_at t).id ≡ t.id
unfolding retry_row
retry_row-id now next message received_at t = refl

retry_each-fences :
    (now next : ℕ) (message : Text) (j : ℕ) (t : Trigger) (claims rows : List Trigger)
    → row_of j rows ≡ some t
    → NoneHolds claims t
    → row_of j (retry_each now next message claims rows) ≡ some t
unfolding retry_each
retry_each-fences now next message j t [] rows found free = found
retry_each-fences now next message j t (c ∷ claims) rows found free =
    elim (Option-cases (row_of c.id rows)) [
      | inl gone ↦ rw gone (retry_each-fences now next message j t claims rows found free.1)
      | inr (r, there) ↦ rw there (
          retry_each-fences now next message j t claims
            (update_where (holds_lease c) (retry_row now next message r.received_at) rows)
            (row_of-update_held c (retry_row now next message r.received_at) j t rows
              (retry_row-id now next message r.received_at) found free.0)
            free.1)
    ]

-- A row whose lease none of the claims holds is left as it was by completing and by retrying them.
pub stale_claims_change_nothing :
    (safe : Text → Text) (now next : ℕ) (message : Text) (j : ℕ) (t : Trigger)
    (claims rows : List Trigger)
    → row_of j rows ≡ some t
    → NoneHolds claims t
    → (row_of j (complete_claimed now claims rows) ≡ some t)
      × (row_of j (retry_claimed safe now next message claims rows) ≡ some t)
unfolding complete_claimed retry_claimed
stale_claims_change_nothing safe now next message j t claims rows found free =
    let free' = AllRows-valid_claims (λ c. holds_lease c t ≡ false) [] claims free in
    (
      complete_each-fences now j t (valid_claims [] claims) rows found free',
      retry_each-fences now next _ j t (valid_claims [] claims) rows found free',
    )

-- The claims that carry another token.
abbrev pub OtherTokens : Text → List Trigger → Type 0
OtherTokens token claims = AllRows (λ c. eq_text token c.lease_token ≡ false) claims

NoneHolds-of_tokens :
    (token : Text) (t : Trigger) (claims : List Trigger)
    → t.lease_token ≡ token
    → OtherTokens token claims
    → NoneHolds claims t
NoneHolds-of_tokens token t [] same other = tt
NoneHolds-of_tokens token t (c ∷ claims) same other =
    (rw same (ground (arith, other.0)), NoneHolds-of_tokens token t claims same other.1)

-- The row that a successful claim leaves.
record Leased (id until : ℕ) (token : Text) (rows : List Trigger) : Type 0 where
  row : Trigger
  found : row_of id rows ≡ some row
  is_held : row.status ≡ processing
  held_until : row.lease_until ≡ some until
  held_by : row.lease_token ≡ token

module _ (now until : ℕ) (token : Text) (t : Trigger)
    (won : is_leasable now (reclaimed now t) ≡ true) where
  claim_row-leases : claim_row now until token t ≡ lease_row until token (reclaimed now t)
  unfolding claim_row
  claim_row-leases = ground (arith, won)

-- A row under a running lease is neither released, buried nor leased anew.
reclaimed-idle :
    (later until : ℕ) (t : Trigger)
    → t.status ≡ processing
    → t.lease_until ≡ some until
    → later < until
    → reclaimed later t ≡ t
unfolding reclaimed
reclaimed-idle later until t held lease soon = ground arith

claim_row-idle :
    (later until until' : ℕ) (token : Text) (t : Trigger)
    → t.status ≡ processing
    → t.lease_until ≡ some until
    → later < until
    → (is_due later (reclaimed later t) ≡ false) × (claim_row later until' token t ≡ t)
unfolding claim_row
claim_row-idle later until until' token t held lease soon =
    rw (reclaimed-idle later until t held lease soon) (ground arith, ground arith)

module _ (safe : Text → Text) (now id lease : ℕ) (token : Text) (rows : List Trigger)
    (distinct : DistinctIds rows) (pos : 0 < id)
    (success : is_claimed (claim_webhook_trigger safe now id lease (some token) rows).0
      ≡ true) where
  claim-Leased :
      Leased id
        (now + lease_or_default lease)
        token
        (claim_webhook_trigger safe now id lease (some token) rows).1
  claim-Leased =
      let (won, spec) = claim-refines safe now id lease id token rows distinct pos in
      leased_row (row_of id rows) won spec
    where
      until : ℕ
      until = now + lease_or_default lease

      after : List Trigger
      after = (claim_webhook_trigger safe now id lease (some token) rows).1

      leased_row :
          (before : Option Trigger)
          → is_claimed (claim_webhook_trigger safe now id lease (some token) rows).0
            ≡ row_passes (is_leasable now) (map_row (reclaimed now) before)
          → row_of id after
            ≡ (if nat_beq id id then map_row (claim_row now until token) before else before)
          → Leased id until token after
      leased_row none won spec = absurd (cc (won, success))
      leased_row (some t) won spec =
          let leases = claim_row-leases now until token t (sym won ∙ success) in
          record {
            row = claim_row now until token t;
            found = ground (arith, spec);
            is_held = rw leases refl;
            held_until = rw leases refl;
            held_by = rw leases refl;
          }

  -- Until the lease runs out, no other claim of the row succeeds, and none changes it.
  pub claim-exclusive :
      (later lease' : ℕ) (token' : Text)
      → later < now + lease_or_default lease
      → let rows' = (claim_webhook_trigger safe now id lease (some token) rows).1 in
        (is_claimed (claim_webhook_trigger safe later id lease' (some token') rows').0 ≡ false)
        × (row_of id (claim_webhook_trigger safe later id lease' (some token') rows').1
            ≡ row_of id rows')
  claim-exclusive later lease' token' soon =
      let rows' = (claim_webhook_trigger safe now id lease (some token) rows).1 in
      let held = claim-Leased in
      let (lost, same) =
        claim-refines safe later id lease' id token' rows'
          (claim-DistinctIds safe now id lease token rows distinct) pos in
      let (idle, kept) =
        claim_row-idle later (now + lease_or_default lease) (later + lease_or_default lease') token'
          held.row held.is_held held.held_until soon in
      (
        lost
            ∙ ap (λ o. row_passes (is_leasable later) (map_row (reclaimed later) o)) held.found
            ∙ ground (arith, idle),
        ground (arith, same, kept, held.found),
      )

  -- A worker that holds an older token of the row can neither complete nor retry it.
  pub claim-fences :
      (later next : ℕ) (message : Text) (claims : List Trigger)
      → OtherTokens token claims
      → let rows' = (claim_webhook_trigger safe now id lease (some token) rows).1 in
        (row_of id (complete_claimed later claims rows') ≡ row_of id rows')
        × (row_of id (retry_claimed safe later next message claims rows') ≡ row_of id rows')
  claim-fences later next message claims other =
      let held = claim-Leased in
      let (completed, retried) =
        stale_claims_change_nothing safe later next message id held.row claims
          (claim_webhook_trigger safe now id lease (some token) rows).1 held.found
          (NoneHolds-of_tokens token held.row claims held.held_by other) in
      (completed ∙ sym held.found, retried ∙ sym held.found)
