-- ===== src/Store/Triggers/Lease.antt =====
-- Leases exclude one another, and a stale claim is fenced off.
use tail_state.Prelude.{
  Bool, Bool-cases, List, Option, Option-cases, ap, arith, false, if◌then◌else◌, inl, inr, nat_beq,
  nat_eq, none, not, refl, some, string_eq, suc, true, zero, ℕ, ◌&&◌, ◌+◌, ◌<◌, ◌∙◌, ◌≡◌,
}
use tail_state.Text.{Text, text_eq, text_ordered}
use tail_state.Store.Triggers.{
  Trigger, bury, has_id, is_buried, is_decodable, is_due, is_released, lease_or_default, lease_row,
  processing, read_row, release, safe_error, with_names,
}
use tail_state.Store.Triggers.Rows.{
  DistinctIds, apply_if, count_where-row_of, map_row, row_of, row_of-agree, row_of-unchanged,
  row_of-update_id, row_passes, update_where-DistinctIds,
}
use tail_state.Store.Triggers.Claim.{
  Claim, claim_webhook_trigger, claimed, failed, read_claim, reclaim, refused,
}
use tail_state.Store.Table.{count_where, update_where}

-- The specification: what a claim does to the row with the claimed id.
unfoldable pub reclaimed : ℕ → Trigger → Trigger
reclaimed now t = apply_if (is_buried now) bury (apply_if (is_released now) release t)

-- A row that is due but cannot be read fails the transaction, which leaves it as it was.
unfoldable pub claim_row : ℕ → ℕ → Text → Trigger → Trigger
unfolding is_decodable
claim_row now until token t =
    let opened = reclaimed now t in
    if is_due now opened
    then (if is_decodable opened then lease_row until token opened else t)
    else opened

-- The row is leased by a claim: due, and readable.
abbrev pub is_leasable : ℕ → Trigger → Bool
is_leasable now t = is_due now t && is_decodable t

row_of-reclaim :
    (now id j : ℕ) (rows : List Trigger)
    → row_of j (reclaim (has_id id) now rows)
      ≡ (if nat_beq j id then map_row (reclaimed now) (row_of j rows) else row_of j rows)
unfolding reclaim reclaimed
row_of-reclaim now id j rows = ground (
  arith,
  row_of-update_id (is_buried now) bury id j
      (update_where (λ t. has_id id t && is_released now t) release rows),
  row_of-update_id (is_released now) release id j rows,
)

pub reclaim-DistinctIds :
    (test : Trigger → Bool) (now : ℕ) (rows : List Trigger)
    → DistinctIds rows
    → DistinctIds (reclaim test now rows)
unfolding reclaim
reclaim-DistinctIds test now rows h =
    update_where-DistinctIds (λ t. test t && is_buried now t) bury
      (update_where (λ t. test t && is_released now t) release rows) (λ t. refl)
      (update_where-DistinctIds (λ t. test t && is_released now t) release rows (λ t. refl) h)

abbrev pub is_claimed : Claim → Bool
is_claimed (claimed t) = true
is_claimed _ = false

module _ (safe : Text → Text) (now lease n : ℕ) (token : Text) (rows : List Trigger)
    (distinct : DistinctIds rows) where
  abbrev opened : List Trigger
  opened = reclaim (has_id (suc n)) now rows

  abbrev until : ℕ
  until = now + lease_or_default lease

  abbrev leased : List Trigger
  leased = update_where (λ t. has_id (suc n) t && is_due now t) (lease_row until token) opened

  count_due :
      nat_beq (count_where (λ t. has_id (suc n) t && is_due now t) opened) 0
      ≡ not (row_passes (is_due now) (map_row (reclaimed now) (row_of (suc n) rows)))
  count_due =
      count_where-row_of (is_due now) (suc n) opened
        (reclaim-DistinctIds (has_id (suc n)) now rows distinct)
      ∙ ap (λ o. not (row_passes (is_due now) o))
          (row_of-reclaim now (suc n) (suc n) rows ∙ ground arith)

  claim-refused :
      row_passes (is_due now) (map_row (reclaimed now) (row_of (suc n) rows)) ≡ false
      → claim_webhook_trigger safe now (suc n) lease (some token) rows ≡ (refused, opened)
  unfolding claim_webhook_trigger
  claim-refused quiet =
      let none_due : nat_beq (count_where (λ t. has_id (suc n) t && is_due now t) opened) 0 ≡ true =
        count_due ∙ ap not quiet in
      rw none_due refl

  claim-read :
      row_passes (is_due now) (map_row (reclaimed now) (row_of (suc n) rows)) ≡ true
      → claim_webhook_trigger safe now (suc n) lease (some token) rows
        ≡ read_claim safe token rows leased (row_of (suc n) leased)
  unfolding claim_webhook_trigger
  claim-read due =
      let some_due : nat_beq (count_where (λ t. has_id (suc n) t && is_due now t) opened) 0
          ≡ false =
        count_due ∙ ap not due in
      rw some_due refl

  -- The row of each id after the transaction has leased.
  row_of-leased :
      (j : ℕ)
      → row_of j leased ≡ (
          if nat_beq j (suc n)
          then map_row
              (λ t. apply_if (is_due now) (lease_row until token) (reclaimed now t))
              (row_of j rows)
          else row_of j rows)
  row_of-leased j = ground (
    arith,
    row_of-reclaim now (suc n) j rows,
    row_of-update_id (is_due now) (lease_row until token) (suc n) j opened (λ t. refl),
  )

-- What reading the leased row makes of the transaction.
read_claim-is :
    (safe : Text → Text) (token : Text) (rows table : List Trigger) (t : Trigger)
    → (is_decodable t ≡ true
        → read_claim safe token rows table (some t) ≡ (
          claimed (record (with_names (safe_error safe t)) {
            status = processing;
            lease_token = token;
          }),
          table,
        ))
      × (is_decodable t ≡ false → read_claim safe token rows table (some t) ≡ (failed, rows))
unfolding read_claim read_row
read_claim-is safe token rows table t =
    (λ fine. rw (fine, read_claim) refl, λ damaged. rw (damaged, read_claim) refl)

read_claim-DistinctIds :
    (safe : Text → Text) (token : Text) (rows table : List Trigger) (o : Option Trigger)
    → DistinctIds rows
    → DistinctIds table
    → DistinctIds (read_claim safe token rows table o).1
unfolding read_claim
read_claim-DistinctIds safe token rows table none h k = h
read_claim-DistinctIds safe token rows table (some t) h k = elim (Bool-cases (is_decodable t)) [
  | inl fine ↦ rw ((read_claim-is safe token rows table t).0 fine) k
  | inr damaged ↦ rw ((read_claim-is safe token rows table t).1 damaged) h
]

claim_row-cases :
    (now until : ℕ) (token : Text) (t : Trigger)
    → (is_due now (reclaimed now t) ≡ false → reclaimed now t ≡ claim_row now until token t)
      × (is_due now (reclaimed now t) ≡ true
          → (is_decodable (reclaimed now t) ≡ true
              → apply_if (is_due now) (lease_row until token) (reclaimed now t)
                ≡ claim_row now until token t)
            × (is_decodable (reclaimed now t) ≡ false → t ≡ claim_row now until token t))
unfolding claim_row
claim_row-cases now until token t = (
  λ quiet. rw (quiet, claim_row) refl,
  λ due. (λ fine. rw (due, fine, claim_row) refl, λ damaged. rw (due, damaged, claim_row) refl),
)

-- Leasing a row does not touch its lists.
is_decodable-lease_row :
    (now until : ℕ) (token : Text) (t : Trigger)
    → is_due now t ≡ true
    → is_decodable (apply_if (is_due now) (lease_row until token) t) ≡ is_decodable t
unfolding is_decodable
is_decodable-lease_row now until token t due = rw due refl

-- For distinct ids, an id that is not 0 and a token: the row is claimed exactly when it is due after
-- expired leases and old rows were dealt with, and can be read; the transaction does to the table
-- what the specification says, row by row.
pub claim-refines :
    (safe : Text → Text) (now id lease j : ℕ) (token : Text) (rows : List Trigger)
    → DistinctIds rows
    → 0 < id
    → (is_claimed (claim_webhook_trigger safe now id lease (some token) rows).0
        ≡ row_passes (is_leasable now) (map_row (reclaimed now) (row_of id rows)))
      × (row_of j (claim_webhook_trigger safe now id lease (some token) rows).1 ≡ (
          if nat_beq j id
          then map_row (claim_row now (now + lease_or_default lease) token) (row_of j rows)
          else row_of j rows))
claim-refines safe now zero lease j token rows h pos = absurd (omega arith)
claim-refines safe now (suc n) lease j token rows h pos =
    let spec = claim_row-cases now (now + lease_or_default lease) token in
    elim (Option-cases (row_of (suc n) rows)) [
      | inl missing ↦
          rw (claim-refused safe now lease n token rows h (ground (arith, missing)))
            (ground (arith, missing), ground (arith, missing, row_of-reclaim now (suc n) j rows))
      | inr (t, there) ↦ elim (Bool-cases (is_due now (reclaimed now t))) [
        | inr quiet ↦
            rw (claim-refused safe now lease n token rows h (ground (arith, there, quiet))) (
              ground (arith, there, quiet),
              row_of-reclaim now (suc n) j rows
                  ∙ row_of-agree _ _ j (suc n) t rows there ((spec t).0 quiet),
            )
        | inl due ↦
            let leased_t =
              apply_if (is_due now) (lease_row (now + lease_or_default lease) token)
                (reclaimed now t) in
            let here : row_of (suc n) (leased safe now lease n token rows h) ≡ some leased_t =
              row_of-leased safe now lease n token rows h (suc n) ∙ ground (arith, there) in
            let lists =
              is_decodable-lease_row now (now + lease_or_default lease) token (reclaimed now t)
                due in
            let run =
              claim-read safe now lease n token rows h (ground (arith, there, due))
              ∙ ap (read_claim safe token rows (leased safe now lease n token rows h)) here in
            let read =
              read_claim-is safe token rows (leased safe now lease n token rows h) leased_t in
            elim (Bool-cases (is_decodable (reclaimed now t))) [
              | inl fine ↦ rw (run ∙ read.0 (lists ∙ fine)) (
                ground (arith, there, due, fine),
                row_of-leased safe now lease n token rows h j
                    ∙ row_of-agree _ _ j (suc n) t rows there (((spec t).1 due).0 fine),
              )
              | inr damaged ↦ rw (run ∙ read.1 (lists ∙ damaged)) (
                ground (arith, there, due, damaged),
                row_of-unchanged _ j (suc n) t rows there (((spec t).1 due).1 damaged),
              )
            ]
      ]
    ]

-- A claim keeps the ids of the rows.
pub claim-DistinctIds :
    (safe : Text → Text) (now id lease : ℕ) (token : Text) (rows : List Trigger)
    → DistinctIds rows
    → DistinctIds (claim_webhook_trigger safe now id lease (some token) rows).1
unfolding claim_webhook_trigger
claim-DistinctIds safe now zero lease token rows h = h
claim-DistinctIds safe now (suc n) lease token rows h =
    let open_rows = reclaim (has_id (suc n)) now rows in
    let distinct = reclaim-DistinctIds (has_id (suc n)) now rows h in
    elim (Bool-cases (nat_beq (count_where (λ t. has_id (suc n) t && is_due now t) open_rows) 0)) [
      | inl none_due ↦ rw none_due distinct
      | inr some_due ↦ rw some_due (
          read_claim-DistinctIds safe token rows _ _ h (
            update_where-DistinctIds (λ t. has_id (suc n) t && is_due now t)
              (lease_row (now + lease_or_default lease) token) open_rows (λ t. refl) distinct))
    ]
