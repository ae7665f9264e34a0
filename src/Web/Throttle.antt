-- ===== src/Web/Throttle.antt =====
-- internal/web/throttle.go: the failure windows that slow down password guessing.
-- A time is a number of nanoseconds; `at.After(now.Add(-w))` is written `now < at + w`, which is
-- the same test and stays exact on natural numbers.
pub mod Bounds
mod Prune
pub mod History
pub mod Decision
use tail_state.Prelude.{
  ℕ, zero, suc, ◌+◌, ◌-◌, ◌*◌, ◌^◌, String, Bool, true, false, ◌||◌, Option, none, some, List, [],
  ◌∷◌, ◌++◌, ltb, leb, if◌then◌else◌, length, drop, get_elem?, is_empty, keep_if, Dict, lookup,
  insert, remove, Equal, string_eq, ◌==◌, ◌≡◌, ◌↔◌, arith,
}

-- The credential forms, `credentialAction` of challenge.go.
pub data CredentialAction : Type 0 where
  setup login reset : CredentialAction

abbrev pub same_action : CredentialAction → CredentialAction → Bool
same_action setup setup = true
same_action login login = true
same_action reset reset = true
same_action _ _ = false

pub same_action_iff : (a b : CredentialAction) → (same_action a b ≡ true) ↔ (a ≡ b)
same_action_iff a b = ground arith

instance abbrev pub action_eq : Equal CredentialAction
action_eq = record { same = same_action; same_iff = same_action_iff }

abbrev pub second : ℕ
second = 1_000_000_000

abbrev pub max_tracked_login_ips : ℕ
max_tracked_login_ips = 4096

abbrev pub login_failure_window : ℕ
login_failure_window = 15 * 60 * second

abbrev pub login_failures_per_client : ℕ
login_failures_per_client = 5

abbrev pub login_global_failure_budget : ℕ
login_global_failure_budget = 30

abbrev pub login_global_backoff_base : ℕ
login_global_backoff_base = second

abbrev pub login_global_backoff_max : ℕ
login_global_backoff_max = 5 * 60 * second

-- The fields of `Server` that `loginMu` guards.
pub record Limiter : Type 0 where
  pub login_attempts : Dict String (List ℕ)
  pub global_failures : Dict CredentialAction (List ℕ)

-- The failure is still inside the window that ends at `now`.
abbrev pub is_recent : ℕ → ℕ → Bool
is_recent now at = ltb now (at + login_failure_window)

-- The loops over `s.loginAttempts` and `s.globalFailures`: an emptied entry is deleted.
unfoldable pub prune_entries {ℓ} : {K : Type ℓ} → ℕ → Dict K (List ℕ) → Dict K (List ℕ)
prune_entries now [] = []
prune_entries now ((key, attempts) ∷ m) =
    let rest = prune_entries now m in
    let kept = keep_if (is_recent now) attempts in
    if is_empty kept then rest else (key, kept) ∷ rest

-- `attempts[0]`; pruning leaves no empty entry, so the default is never read.
abbrev pub first_attempt : List ℕ → ℕ
first_attempt [] = 0
first_attempt (at ∷ _) = at

-- The scan for the entry whose oldest failure is the oldest of all.
unfoldable pub find_oldest : Dict String (List ℕ) → String → ℕ → String
find_oldest [] oldest_key oldest = oldest_key
find_oldest ((key, attempts) ∷ m) oldest_key oldest =
    let candidate = first_attempt attempts in
    let taken = (oldest_key == "") || ltb candidate oldest in
    find_oldest m (if taken then key else oldest_key) (if taken then candidate else oldest)

-- `for len(s.loginAttempts) > maxTrackedLoginIPs`, one deletion for each unit of fuel.
unfoldable pub evict : ℕ → Dict String (List ℕ) → Dict String (List ℕ)
evict zero m = m
evict (suc fuel) m =
    let rest = evict fuel (remove m (find_oldest m "" 0)) in
    if ltb max_tracked_login_ips (length m) then rest else m

-- The first two loops of `pruneLoginAttemptsLocked`, over the client buckets.
unfoldable pub pruned : ℕ → Dict String (List ℕ) → Dict String (List ℕ)
pruned now m = let kept = prune_entries now m in evict (length kept) kept

unfoldable pub prune_login_attempts : ℕ → Limiter → Limiter
unfolding pruned
prune_login_attempts now s = record {
  login_attempts = pruned now s.login_attempts;
  global_failures = prune_entries now s.global_failures;
}

-- 1s, 2s, 4s, ... capped; the shift is bounded before it is made.
unfoldable pub global_backoff : ℕ → ℕ
global_backoff excess =
    let excess' : ℕ = if ltb 16 excess then 16 else excess in
    let delay = login_global_backoff_base * 2 ^ excess' in
    if ltb login_global_backoff_max delay then login_global_backoff_max else delay

abbrev pub or_empty : Option (List ℕ) → List ℕ
or_empty none = []
or_empty (some xs) = xs

-- `attempts[i]` of an index that the code has checked.
abbrev pub at_index : List ℕ → ℕ → ℕ
at_index xs i = elim (get_elem? xs i) [ none ↦ 0 | some t ↦ t ]

unfoldable pub client_retry : ℕ → List ℕ → ℕ
client_retry now attempts =
    if leb login_failures_per_client (length attempts)
    then at_index attempts (length attempts - login_failures_per_client)
      + login_failure_window
      - now
    else 0

-- A negative wait never exceeds `retry`, and neither does the 0 that `-` gives for it.
unfoldable pub global_retry : ℕ → List ℕ → ℕ → ℕ
global_retry now global retry =
    if leb login_global_failure_budget (length global)
    then (let until =
          at_index global (length global - 1)
          + global_backoff (length global - login_global_failure_budget) in
        let wait = until - now in if ltb retry wait then wait else retry)
    else retry

-- The wait, and whether the submission is refused.
unfoldable pub throttled : ℕ → CredentialAction → String → Limiter → (ℕ × Bool) × Limiter
unfolding prune_login_attempts client_retry global_retry
throttled now action key s =
    let s' = prune_login_attempts now s in
    let retry = client_retry now (or_empty (lookup s'.login_attempts key)) in
    let retry' = global_retry now (or_empty (lookup s'.global_failures action)) retry in
    ((retry', ltb 0 retry'), s')

-- `append(global[:0:0], global[len(global)-limit:]...)`.
unfoldable pub trim_global : List ℕ → List ℕ
trim_global global =
    let limit : ℕ = login_global_failure_budget + 17 in
    if ltb limit (length global) then drop (length global - limit) global else global

unfoldable pub record_failure : ℕ → CredentialAction → String → Limiter → Limiter
unfolding prune_login_attempts trim_global
record_failure now action key s =
    let s' = prune_login_attempts now s in
    let attempts = or_empty (lookup s'.login_attempts key) ++ now ∷ [] in
    let global = or_empty (lookup s'.global_failures action) ++ now ∷ [] in
    prune_login_attempts now (record {
      login_attempts = insert s'.login_attempts key attempts;
      global_failures = insert s'.global_failures action (trim_global global);
    })

unfoldable pub clear_failures : String → Limiter → Limiter
clear_failures key s = record s { login_attempts = remove s.login_attempts key }
