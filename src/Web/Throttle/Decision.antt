-- ===== src/Web/Throttle/Decision.antt =====
-- When a submission is refused, and for how long.
use tail_state.Prelude.{
  ℕ, zero, suc, ◌+◌, ◌-◌, ◌*◌, ◌≤◌, ◌<◌, String, true, false, List, [], ◌∷◌, ltb, if◌then◌else◌,
  length, drop, keep_if, lookup, ◌≡◌, refl, arith, length-drop, length-keep_if, Bool-cases, inl,
  inr, IsMap, ◌++◌, lookup-insert, insert-IsMap, length-append,
}
use native.Mathlib.Nat.{pow-suc, zero-add, suc-add}
use tail_state.Web.Throttle.{
  Limiter, CredentialAction, max_tracked_login_ips, is_recent, login_failure_window, at_index,
  or_empty, login_global_backoff_max, login_global_failure_budget, login_global_backoff_base,
  login_failures_per_client, prune_login_attempts, throttled, client_retry, global_retry,
  global_backoff, trim_global, string_eq, action_eq, record_failure, clear_failures,
}
use tail_state.Web.Throttle.Prune.{prune_entries-IsMap, lookup-prune_entries}
use tail_state.Web.Throttle.History.{
  Op, fail, check, clear, is_fail, step, InOrder, last_time, failures, run, history, new_limiter,
  bucket-history,
}

at_index-is_recent :
    (now : ℕ) (xs : List ℕ) (i : ℕ)
    → i < length (keep_if (is_recent now) xs)
    → now < at_index (keep_if (is_recent now) xs) i + login_failure_window
unfolding keep_if
at_index-is_recent now [] i h = absurd (omega arith)
at_index-is_recent now (x ∷ xs) zero h = ground (arith, at_index-is_recent now xs 0)
at_index-is_recent now (x ∷ xs) (suc i) h =
    ground (arith, at_index-is_recent now xs i, at_index-is_recent now xs (suc i))

client_retry_pos :
    (now : ℕ) (xs : List ℕ)
    → login_failures_per_client ≤ length (keep_if (is_recent now) xs)
    → 0 < client_retry now (keep_if (is_recent now) xs)
unfolding client_retry
client_retry_pos now xs h = ground (
  arith,
  at_index-is_recent now xs (length (keep_if (is_recent now) xs) - login_failures_per_client),
)

global_backoff-capped :
    (excess : ℕ) → 16 ≤ excess → global_backoff excess ≡ login_global_backoff_max
unfolding global_backoff
global_backoff-capped excess h = elim (Bool-cases (ltb 16 excess)) [
  | inl e ↦ rw e
  | inr e ↦ let is : excess ≡ 16 = ground arith in rw is
]

global_backoff-suc :
    (excess : ℕ)
    → excess < 16
    → global_backoff (suc excess) ≡ (
        if ltb login_global_backoff_max (2 * global_backoff excess)
        then login_global_backoff_max
        else 2 * global_backoff excess)
unfolding global_backoff
global_backoff-suc excess h = ground (arith, pow-suc 2 excess)

-- The wait after the first failure past the budget is one second, each further failure doubles
-- it, and it never passes the maximum.
pub global_backoff_doubles :
    (excess : ℕ)
    → (global_backoff 0 ≡ login_global_backoff_base)
      × (global_backoff (suc excess) ≡ (
          if ltb login_global_backoff_max (2 * global_backoff excess)
          then login_global_backoff_max
          else 2 * global_backoff excess))
      × (global_backoff excess ≤ login_global_backoff_max)
unfolding global_backoff
global_backoff_doubles excess = (
  refl,
  elim (Bool-cases (ltb excess 16)) [
    | inl e ↦ global_backoff-suc excess (ground arith)
    | inr e ↦ ground (arith, global_backoff-capped excess, global_backoff-capped (suc excess))
  ],
  ground arith,
)

at_index-drop : (n : ℕ) (xs : List ℕ) (i : ℕ) → at_index (drop n xs) i ≡ at_index xs (n + i)
at_index-drop zero xs i = rw zero-add
at_index-drop (suc n) [] i = refl
at_index-drop (suc n) (x ∷ xs) i = rw suc-add (at_index-drop n xs i)

-- Dropping all but the newest failures never changes the global wait.
pub trim_global-keeps_backoff :
    (now retry : ℕ) (global : List ℕ)
    → global_retry now (trim_global global) retry ≡ global_retry now global retry
unfolding global_retry trim_global
trim_global-keeps_backoff now retry global =
    let n = length global in
    ground (
      arith,
      length-drop (n - 47) global,
      at_index-drop (n - 47) global 46,
      global_backoff-capped (n - 30),
      global_backoff-capped 17,
    )

-- `n` bounds every global list, since each failure adds one entry.
record GlobalBound (n : ℕ) (s : Limiter) : Type 0 where
  distinct : IsMap s.global_failures
  bounded : (a : CredentialAction) → length (or_empty (lookup s.global_failures a)) ≤ n

length-trim_global : (global : List ℕ) → length (trim_global global) ≤ length global
unfolding trim_global
length-trim_global global =
    ground (arith, length-drop (length global - (login_global_failure_budget + 17)) global)

prune-GlobalBound :
    {n : ℕ} (now : ℕ) {s : Limiter} → GlobalBound n s → GlobalBound n (prune_login_attempts now s)
unfolding prune_login_attempts
prune-GlobalBound now {s} h = record {
  distinct = prune_entries-IsMap now s.global_failures h.distinct;
  bounded = λ a. rw (lookup-prune_entries now s.global_failures a h.distinct) (
      omega (
        arith,
        length-keep_if (is_recent now) (or_empty (lookup s.global_failures a)),
        h.bounded a,
      ));
}

step-GlobalBound :
    (n : ℕ) (s : Limiter) (op : Op) → GlobalBound n s → GlobalBound (is_fail op + n) (step s op)
unfolding step record_failure throttled clear_failures
step-GlobalBound n s (fail t action key) h =
    let h' = prune-GlobalBound t h in
    let global = or_empty (lookup (prune_login_attempts t s).global_failures action) ++ t ∷ [] in
    prune-GlobalBound t (record {
      distinct = insert-IsMap _ action (trim_global global) h'.distinct;
      bounded = λ a. rw lookup-insert (
          ground (
            arith,
            h'.bounded a,
            h'.bounded action,
            length-trim_global global,
            length-append (or_empty (lookup (prune_login_attempts t s).global_failures action))
                (t ∷ []),
          ));
    })
step-GlobalBound n s (check t action key) h = rw zero-add (prune-GlobalBound t h)
step-GlobalBound n s (clear key) h =
    rw zero-add (record { distinct = h.distinct; bounded = h.bounded })

run-GlobalBound :
    (n : ℕ) (s : Limiter) (ops : List Op)
    → GlobalBound n s
    → GlobalBound (failures ops + n) (run s ops)
unfolding run failures
run-GlobalBound n s [] h = rw zero-add h
run-GlobalBound n s (op ∷ ops) h =
    rw (move (is_fail op) (failures ops) n)
      (run-GlobalBound (is_fail op + n) (step s op) ops (step-GlobalBound n s op h))
  where
    move : (a b c : ℕ) → a + b + c ≡ b + (a + c)
    move a b c = omega arith

-- After any history of submissions with at most `max_tracked_login_ips` failures, checked at a
-- time that is not before the last of them: five recent failures of a client since its last
-- success refuse it, and while fewer than thirty failures were recorded in all, a client with
-- fewer than five is let through.
pub throttled-history :
    (ops : List Op) (now : ℕ) (action : CredentialAction) (key : String)
    → InOrder 0 ops
    → last_time 0 ops ≤ now
    → failures ops ≤ max_tracked_login_ips
    → (login_failures_per_client ≤ length (keep_if (is_recent now) (history key [] ops))
        → (throttled now action key (run new_limiter ops)).0.1 ≡ true)
      × (failures ops < login_global_failure_budget
          → length (keep_if (is_recent now) (history key [] ops)) < login_failures_per_client
          → (throttled now action key (run new_limiter ops)).0.1 ≡ false)
unfolding throttled lookup
throttled-history ops now action key ordered le fits =
    let bucket = bucket-history ops now key ordered le fits in
    let recent = history key [] ops in
    let start : GlobalBound 0 new_limiter = record { distinct = tt; bounded = λ a. omega arith } in
    let global = prune-GlobalBound now (run-GlobalBound 0 new_limiter ops start) in
    (
      λ h. rw bucket (ground (arith, client_retry_pos now recent)),
      λ few h. rw bucket (ground (arith, global.bounded action)),
    )
