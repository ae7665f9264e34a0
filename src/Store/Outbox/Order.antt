-- ===== src/Store/Outbox/Order.antt =====
-- `ClaimDueOutbox` hands each destination its notifications oldest first.
use tail_state.Prelude.{
  Bool, Bool-cases, Every, Every-both, Every-mono, List, [], arith, false, inl, inr, keep_if, leb,
  ltb, nat_beq, nat_eq, not, some_of, some_of-refuted, string_eq, suc, take, true, zero, ℕ, ◌&&◌,
  ◌∷◌, ◌≡◌,
}
use tail_state.Text.{text_eq, text_ordered}
use tail_state.Store.Outbox.{Destination, OutboxRow, goes_to, has_outbox_id, is_active, is_waiting}
use tail_state.Store.Outbox.Claim.{holds_back, is_claimable, select_due}

-- An older row of the same destination that still waits.
abbrev pub waits_before : OutboxRow → OutboxRow → Bool
waits_before c o = nat_beq o.destination_id c.destination_id && ltb o.id c.id && is_waiting o.status

-- The rows are in the order of their ids, as the primary key keeps them.
abbrev pub InOrder : List OutboxRow → Type 0
InOrder [] = Unit
InOrder (t ∷ rows) = (some_of (λ r. leb r.id t.id) rows ≡ false) × InOrder rows

abbrev pub in_batch : List OutboxRow → OutboxRow → Bool
in_batch batch o = some_of (λ s. has_outbox_id s.id o) batch

-- A row that passes the test of a query, is older than `c`, and is not in the batch.
abbrev skipped : (OutboxRow → Bool) → List OutboxRow → OutboxRow → OutboxRow → Bool
skipped test batch c o = ltb o.id c.id && test o && not (in_batch batch o)

some_of-younger :
    (test : OutboxRow → Bool) (batch rows : List OutboxRow) (t : OutboxRow)
    → some_of (λ r. leb r.id t.id) rows ≡ false
    → some_of (skipped test batch t) (t ∷ rows) ≡ false
unfolding some_of
some_of-younger test batch rows t h =
    let rest =
      some_of-refuted (λ r. leb r.id t.id) (λ r. leb r.id t.id) (skipped test batch t) rows
        (λ r older _. ground arith) h h in
    ground (arith, rest)

skipped-cons :
    (test : OutboxRow → Bool) (batch rows : List OutboxRow) (t c : OutboxRow)
    → some_of (skipped test batch c) rows ≡ false
    → some_of (skipped test (t ∷ batch) c) (t ∷ rows) ≡ false
unfolding some_of
skipped-cons test batch rows t c h =
    let rest =
      some_of-refuted (skipped test batch c) (skipped test batch c) (skipped test (t ∷ batch) c)
        rows (λ r ok _. ground (arith, ok)) h h in
    ground (arith, rest)

skipped-cons_fails :
    (test : OutboxRow → Bool) (batch rows : List OutboxRow) (t c : OutboxRow)
    → test t ≡ false
    → some_of (skipped test batch c) rows ≡ false
    → some_of (skipped test batch c) (t ∷ rows) ≡ false
unfolding some_of
skipped-cons_fails test batch rows t c fails h = ground (arith, fails, h)

-- A batch that the limit cuts skips no older row.
take-keeps_order :
    (test : OutboxRow → Bool) (n : ℕ) (rows : List OutboxRow)
    → InOrder rows
    → let batch = take n (keep_if test rows) in
      Every (λ c. some_of (skipped test batch c) rows ≡ false) batch
unfolding keep_if
take-keeps_order test zero rows h = tt
take-keeps_order test (suc n) [] h = tt
take-keeps_order test (suc n) (t ∷ rows) h = elim (Bool-cases (test t)) [
  | inl passes ↦
      let batch = take n (keep_if test rows) in
      rw passes (
        some_of-younger test (t ∷ batch) rows t h.0,
        Every-mono _ _ batch (λ c. skipped-cons test batch rows t c)
            (take-keeps_order test n rows h.1),
      )
  | inr fails ↦
      let batch = take (suc n) (keep_if test rows) in
      rw fails (
        Every-mono _ _ batch (λ c. skipped-cons_fails test batch rows t c fails)
          (take-keeps_order test (suc n) rows h.1))
]

some_of-map_test :
    (p q : OutboxRow → Bool) (rows : List OutboxRow)
    → ((o : OutboxRow) → p o ≡ false → q o ≡ false)
    → some_of p rows ≡ false
    → some_of q rows ≡ false
some_of-map_test p q rows f h = some_of-refuted p p q rows (λ o a _. f o a) h h

-- Whatever waits before a claimable row is claimable as well.
waits_before-claimable :
    (now : ℕ) (destinations : List Destination) (rows : List OutboxRow) (c o : OutboxRow)
    → is_claimable now destinations rows c ≡ true
    → holds_back now c o ≡ false
    → is_claimable now destinations rows o ≡ false
    → waits_before c o ≡ false
unfolding is_claimable
waits_before-claimable now destinations rows c o ready free unready =
    elim (Bool-cases (waits_before c o)) [
      | inr quiet ↦ quiet
      | inl waits ↦
          let same : o.destination_id ≡ c.destination_id = ground arith in
          let unblocked : some_of (holds_back now c) rows ≡ false = ground (arith, ready) in
          let unblocked' =
            some_of-map_test (holds_back now c) (holds_back now o) rows
              (λ p h. ground (arith, h, same, waits)) unblocked in
          let served : some_of (λ d. goes_to c d && is_active d) destinations ≡ true =
            ground (arith, ready) in
          let served' : some_of (λ d. goes_to o d && is_active d) destinations ≡ true =
            rw same served in
          absurd (ground (arith, unready, ready, free, waits, served', unblocked'))
    ]

Every-take_kept :
    (test : OutboxRow → Bool) (n : ℕ) (rows : List OutboxRow)
    → Every (λ c. test c ≡ true) (take n (keep_if test rows))
unfolding keep_if
Every-take_kept test zero rows = tt
Every-take_kept test (suc n) [] = tt
Every-take_kept test (suc n) (t ∷ rows) = elim (Bool-cases (test t)) [
  | inl passes ↦ rw passes (passes, Every-take_kept test n rows)
  | inr fails ↦ rw fails (Every-take_kept test (suc n) rows)
]

-- Whatever waits before a row of the query's answer is in the answer.
pub select_due-InOrder :
    (now limit : ℕ) (destinations : List Destination) (rows : List OutboxRow)
    → InOrder rows
    → let batch = select_due now limit destinations rows in
      Every (λ c. some_of (λ o. waits_before c o && not (in_batch batch o)) rows ≡ false) batch
unfolding select_due
select_due-InOrder now limit destinations rows h =
    let test = is_claimable now destinations rows in
    let batch = take limit (keep_if test rows) in
    Every-mono _ _ batch
      (λ c (ready, none_skipped).
        some_of-refuted (holds_back now c) (skipped test batch c)
          (λ o. waits_before c o && not (in_batch batch o)) rows
          (λ o free unskipped. elim (Bool-cases (test o)) [
            | inl passes ↦ ground (arith, passes, unskipped)
            | inr fails ↦
                let quiet = waits_before-claimable now destinations rows c o ready free fails in
                ground (arith, quiet)
          ])
          (unfold is_claimable in ground (arith, ready)) none_skipped)
      (Every-both _ _ batch (Every-take_kept test limit rows) (take-keeps_order test limit rows h))
