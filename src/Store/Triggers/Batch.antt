-- ===== src/Store/Triggers/Batch.antt =====
-- What one pass of `ClaimWebhookTriggers` hands to the worker, and what it leaves in the table.
use mathlib.Core.Path.{subst}
use tail_state.Store.Triggers.{
  Trigger, is_due, lease_or_default, lease_row, processing, retry_window,
}
use tail_state.Prelude.{
  List, Option, Option-cases, [], ap, arith, bind_some, inl, inr, keep_if, length, nat_eq, none,
  refl, some, string_eq, suc, sym, take, true, zero, ℕ, ◌+◌, ◌<◌, ◌∙◌, ◌∷◌, ◌≡◌, ◌≤◌,
}
use tail_state.Text.{Text, text_eq, text_ordered}
use tail_state.Store.Triggers.Rows.{AllRows, DistinctIds, row_of}
use tail_state.Store.Triggers.Claim.{
  claim_webhook_triggers, committed, lease_selected, limit_or_default, read_rows, reclaim,
}
use tail_state.Store.Triggers.Lease.{reclaim-DistinctIds, reclaimed}
use tail_state.Store.Triggers.Selected.{IsSelected, row_of-reclaim_all, IsSelected-rows}
use tail_state.Store.Triggers.Loop.{IsClaim, IsClaim-claims, IsWaiting}

-- A row that may be leased: due, and within the retry horizon.
record IsReady (now : ℕ) (t : Trigger) : Type 0 where
  in_horizon : now < t.received_at + retry_window
  due : t.next_attempt ≤ now

-- A trigger as the worker receives it, its row before the pass, and its row after it.
pub record IsLeased (now lease : ℕ) (rows rows' : List Trigger) (t : Trigger) : Type 0 where
  pub in_horizon : now < t.received_at + retry_window
  pub due : t.next_attempt ≤ now
  pub held : t.status ≡ processing
  pub until : t.lease_until ≡ some (now + lease_or_default lease)
  pub former : Trigger
  pub stored : row_of t.id rows ≡ some former
  pub counted : t.attempts ≡ former.attempts + 1
  pub left : Trigger
  pub kept : row_of t.id rows' ≡ some left
  pub same_status : left.status ≡ t.status
  pub same_until : left.lease_until ≡ t.lease_until
  pub same_token : left.lease_token ≡ t.lease_token
  pub same_attempts : left.attempts ≡ t.attempts

reclaimed-IsReady :
    (now : ℕ) (t : Trigger) → is_due now (reclaimed now t) ≡ true → IsReady now (reclaimed now t)
unfolding reclaimed
reclaimed-IsReady now t h = ground arith

reclaimed-attempts : (now : ℕ) (t : Trigger) → (reclaimed now t).attempts ≡ t.attempts
unfolding reclaimed
reclaimed-attempts now t = ground arith

committed-some :
    (run : Option (List Trigger × List Trigger)) (rows : List Trigger) {claims rows' : List Trigger}
    → committed rows run ≡ (some claims, rows')
    → run ≡ some (claims, rows')
unfolding committed
committed-some none rows h = absurd (cc h)
committed-some (some (c, r)) rows h = ground arith

limit-le : (limit : ℕ) → limit_or_default limit ≤ 64
limit-le limit = ground arith

length-taken : (n : ℕ) (rows : List Trigger) → length (take n rows) ≤ n
length-taken zero rows = omega arith
length-taken (suc n) [] = omega arith
length-taken (suc n) (t ∷ rows) = omega (arith, length-taken n rows)

IsWaiting-rows :
    (now : ℕ) (table selected : List Trigger)
    → AllRows (IsSelected now table) selected
    → AllRows (IsWaiting table) selected
IsWaiting-rows now table [] h = tt
IsWaiting-rows now table (s ∷ selected) h =
    let one = h.0 in
    (
      record {
        row = one.row;
        found = one.found;
        is_free = ground (arith, one.is_ready);
        same_attempts = sym one.same_attempts;
      },
      IsWaiting-rows now table selected h.1,
    )

-- The row before the pass of one that is in the table that the loop is given.
former_row :
    (now id : ℕ) (rows : List Trigger) (o : Trigger)
    → row_of id (reclaim (λ _. true) now rows) ≡ some o
    → (former : Trigger) × (row_of id rows ≡ some former) × (reclaimed now former ≡ o)
former_row now id rows o found = elim (Option-cases (row_of id rows)) [
  | inl missing ↦ absurd (ground (arith, found, missing, row_of-reclaim_all now id rows))
  | inr (former, there) ↦
      (former, there, ground (arith, found, there, row_of-reclaim_all now id rows))
]

IsLeased-claim :
    (now lease : ℕ) (rows rows' : List Trigger) (c : Trigger)
    → IsClaim (now + lease_or_default lease) (IsSelected now (reclaim (λ _. true) now rows)) rows' c
    → IsLeased now lease rows rows' c
IsLeased-claim now lease rows rows' c h =
    let s = h.had in
    let (former, stored, opened) = former_row now h.trigger.id rows s.row s.found in
    let ready = subst (IsReady now) opened (reclaimed-IsReady now former (rw opened s.is_ready)) in
    let before = sym (ap (λ t. t.attempts) opened) ∙ reclaimed-attempts now former in
    record {
      in_horizon = rw (h.is, s.same_received) ready.in_horizon;
      due = rw (h.is, s.same_next) ready.due;
      held = rw (h.is) refl;
      until = rw (h.is) refl;
      former = former;
      stored = rw (h.is) stored;
      counted = ap (λ t. t.attempts) h.is ∙ ap (λ n. n + 1) (s.same_attempts ∙ before);
      left = lease_row (now + lease_or_default lease) h.token h.row;
      kept = h.found;
      same_status = rw (h.is) refl;
      same_until = rw (h.is) refl;
      same_token = rw (h.is) refl;
      same_attempts = rw (h.is, h.same_attempts) refl;
    }

IsLeased-claims :
    (now lease : ℕ) (rows rows' claims : List Trigger)
    → AllRows
        (IsClaim
          (now + lease_or_default lease)
          (IsSelected now (reclaim (λ _. true) now rows))
          rows')
        claims
    → AllRows (IsLeased now lease rows rows') claims
IsLeased-claims now lease rows rows' [] h = tt
IsLeased-claims now lease rows rows' (c ∷ claims) h =
    (IsLeased-claim now lease rows rows' c h.0, IsLeased-claims now lease rows rows' claims h.1)

-- In a table without repeated ids a pass returns at most 64 triggers. Each was due and younger than
-- the retry horizon, and is handed over in processing, under a lease that ends where the pass says,
-- with one attempt more than its row had; its row is left with that status, lease and count.
pub claim_all-IsLeased :
    (safe : Text → Text) (now limit lease : ℕ) (tokens : ℕ → Option Text)
    (rows claims rows' : List Trigger)
    → DistinctIds rows
    → claim_webhook_triggers safe now limit lease tokens rows ≡ (some claims, rows')
    → (length claims ≤ 64) × AllRows (IsLeased now lease rows rows') claims
unfolding claim_webhook_triggers
claim_all-IsLeased safe now limit lease tokens rows claims rows' distinct h =
    let table = reclaim (λ _. true) now rows in
    let n = limit_or_default limit in
    let until = now + lease_or_default lease in
    let loop = λ (read : List Trigger). lease_selected until tokens 0 read table in
    let (read, was_read, ran) =
      bind_some (read_rows safe (take n (keep_if (is_due now) table))) loop
        (committed-some _ rows h) in
    let table_distinct = reclaim-DistinctIds (λ _. true) now rows distinct in
    let (all, read_distinct, read_count) =
      IsSelected-rows safe now n table read table_distinct was_read in
    let (count, leases) =
      IsClaim-claims (IsSelected now table) until tokens 0 read table claims rows' ran read_distinct
        all (IsWaiting-rows now table read all) in
    (
      omega (arith, count, read_count, length-taken n (keep_if (is_due now) table), limit-le limit),
      IsLeased-claims now lease rows rows' claims leases,
    )
