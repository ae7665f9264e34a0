-- ===== src/Tests/Throttle.antt =====
-- The login limiter at concrete histories.
use tail_state.Web.Throttle.{
  evict, is_recent, login, login_failures_per_client, login_global_failure_budget,
  max_tracked_login_ips, or_empty, prune_entries, prune_login_attempts, record_failure, second,
  throttled,
}
use tail_state.Prelude.{
  List, [], arith, false, insert, keep_if, length, lookup, nat_eq, refl, replicate, string_eq, true,
  ℕ, ◌*◌, ◌<◌, ◌∷◌, ◌≡◌, ◌≤◌,
}
use tail_state.Text.{text_eq, text_ordered}
use tail_state.Web.Throttle.History.{
  InOrder, Op, fail, failures, history, last_time, new_limiter, run, step,
}
use tail_state.Web.Throttle.Decision.{throttled-history}
use tail_state.Web.Throttle.Bounds.{prune_bounded}

-- Five failures of one client, a minute apart.
abbrev minute : ℕ
minute = 60 * second

abbrev burst : List Op
burst =
    fail (1 * minute) login "login:192.0.2.1"
    ∷ fail (2 * minute) login "login:192.0.2.1"
    ∷ fail (3 * minute) login "login:192.0.2.1"
    ∷ fail (4 * minute) login "login:192.0.2.1"
    ∷ fail (5 * minute) login "login:192.0.2.1"
    ∷ []

burst-InOrder : InOrder 0 burst
burst-InOrder = omega arith

burst-last : last_time 0 burst ≤ 6 * minute
unfolding last_time
burst-last = omega arith

burst-failures : failures burst ≤ max_tracked_login_ips
unfolding failures
burst-failures = omega arith

burst-recent :
    login_failures_per_client
    ≤ length (keep_if (is_recent (6 * minute)) (history "login:192.0.2.1" [] burst))
unfolding keep_if history
burst-recent = omega arith

throttled-history_example :
    (login_failures_per_client
        ≤ length (keep_if (is_recent (6 * minute)) (history "login:192.0.2.1" [] burst))
      → (throttled (6 * minute) login "login:192.0.2.1" (run new_limiter burst)).0.1 ≡ true)
    × (failures burst < login_global_failure_budget
        → length (keep_if (is_recent (6 * minute)) (history "login:192.0.2.1" [] burst))
          < login_failures_per_client
        → (throttled (6 * minute) login "login:192.0.2.1" (run new_limiter burst)).0.1 ≡ false)
throttled-history_example =
    throttled-history burst (6 * minute) login "login:192.0.2.1" burst-InOrder burst-last
      burst-failures

burst_is_refused :
    (throttled (6 * minute) login "login:192.0.2.1" (run new_limiter burst)).0.1 ≡ true
burst_is_refused = throttled-history_example.0 burst-recent

prune_bounded_example :
    length (prune_login_attempts (6 * minute) (run new_limiter burst)).login_attempts
    ≤ max_tracked_login_ips
prune_bounded_example = prune_bounded (6 * minute) (run new_limiter burst)

abbrev many : List ℕ
many = replicate 60 (5 * minute)

-- The window is 15 minutes: 16 minutes after the first failure one slot is free.
bucket_after_window :
    length (
      or_empty (
        lookup
          (prune_login_attempts (17 * minute) (run new_limiter burst)).login_attempts
          "login:192.0.2.1"))
    ≡ 3
unfolding prune_login_attempts prune_entries evict run step record_failure keep_if lookup insert
bucket_after_window = refl
