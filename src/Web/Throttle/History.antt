-- ===== src/Web/Throttle/History.antt =====
-- The limiter's client buckets against the history of what was submitted.
use tail_state.Prelude.{
  ℕ, ◌+◌, ◌≤◌, String, List, [], ◌∷◌, ◌++◌, if◌then◌else◌, length, keep_if, Dict, lookup, insert,
  remove, ◌==◌, ◌≡◌, refl, arith, Bool-cases, inl, inr, IsMap, string_eq, keep_if-append,
  keep_if-keep_if, sym, ap, ◌∙◌, lookup-insert, lookup-remove, insert-IsMap, remove-IsMap,
  length-insert, length-remove,
}
use native.Mathlib.Nat.{add-zero, add_assoc}
use tail_state.Web.Throttle.Prune.{
  prune_entries-IsMap, lookup-prune_entries, length-prune_entries, evict_idle, keep_if-later,
}
use tail_state.Web.Throttle.{
  Limiter, pruned, CredentialAction, max_tracked_login_ips, is_recent, prune_entries, evict,
  or_empty, prune_login_attempts, throttled, record_failure, clear_failures,
}

-- A submission that failed, a check before the password is verified, and a success.
pub data Op : Type 0 where
  fail : ℕ → CredentialAction → String → Op
  check : ℕ → CredentialAction → String → Op
  clear : String → Op

unfoldable pub step : Limiter → Op → Limiter
step s (fail now action key) = record_failure now action key s
step s (check now action key) = (throttled now action key s).1
step s (clear key) = clear_failures key s

unfoldable pub run : Limiter → List Op → Limiter
run s [] = s
run s (op ∷ ops) = run (step s op) ops

-- The specification: the failures of one client since its last success.
abbrev pub next_history : String → List ℕ → Op → List ℕ
next_history k h (fail now action key) = if key == k then h ++ now ∷ [] else h
next_history k h (check now action key) = h
next_history k h (clear key) = if key == k then [] else h

unfoldable pub history : String → List ℕ → List Op → List ℕ
history k h [] = h
history k h (op ∷ ops) = history k (next_history k h op) ops

abbrev pub time_after : ℕ → Op → ℕ
time_after now (fail t action key) = t
time_after now (check t action key) = t
time_after now (clear key) = now

unfoldable pub last_time : ℕ → List Op → ℕ
last_time now [] = now
last_time now (op ∷ ops) = last_time (time_after now op) ops

-- The clock does not go back.
abbrev pub InOrder : ℕ → List Op → Type 0
InOrder now [] = Unit
InOrder now (op ∷ ops) = (now ≤ time_after now op) × InOrder (time_after now op) ops

abbrev pub is_fail : Op → ℕ
is_fail (fail now action key) = 1
is_fail _ = 0

unfoldable pub failures : List Op → ℕ
failures [] = 0
failures (op ∷ ops) = is_fail op + failures ops

-- `n` bounds the tracked clients, and the bucket of `k` agrees with the history inside the window.
record Tracks (n now : ℕ) (k : String) (m : Dict String (List ℕ)) (h : List ℕ) : Type 0 where
  distinct : IsMap m
  bounded : length m ≤ n
  same : keep_if (is_recent now) (or_empty (lookup m k)) ≡ keep_if (is_recent now) h

module _ {n now : ℕ} {k : String} {m : Dict String (List ℕ)} {h : List ℕ}
    (t : Tracks n now k m h) where
  later-Tracks : (later : ℕ) → now ≤ later → Tracks n later k m h
  later-Tracks later le = record {
    distinct = t.distinct;
    bounded = t.bounded;
    same =
        sym (keep_if-later now later (or_empty (lookup m k)) le)
        ∙ ap (keep_if (is_recent later)) t.same
        ∙ keep_if-later now later h le;
  }

  -- Pruning evicts nothing while few clients are tracked.
  prune-Tracks : n ≤ max_tracked_login_ips → Tracks n now k (pruned now m) h
  unfolding pruned
  prune-Tracks fits = rw idle (record {
    distinct = prune_entries-IsMap now m t.distinct;
    bounded = omega (arith, length-prune_entries now m, t.bounded);
    same = rw (lookup-prune_entries now m k t.distinct) (keep_if-keep_if _ _ ∙ t.same);
  })
    where
      idle : evict (length (prune_entries now m)) (prune_entries now m) ≡ prune_entries now m
      idle = evict_idle _ _ (omega (arith, length-prune_entries now m, t.bounded))

  lookup-pruned :
      n ≤ max_tracked_login_ips → or_empty (lookup (pruned now m) k) ≡ keep_if (is_recent now) h
  unfolding pruned
  lookup-pruned fits =
      rw
        (evict_idle (length (prune_entries now m)) (prune_entries now m)
          (omega (arith, length-prune_entries now m, t.bounded)))
        (lookup-prune_entries now m k t.distinct ∙ t.same)

  insert-Tracks :
      (key : String)
      → Tracks
          (n + 1)
          now
          k
          (insert m key (or_empty (lookup m key) ++ now ∷ []))
          (if key == k then h ++ now ∷ [] else h)
  insert-Tracks key = record {
    distinct = insert-IsMap m key _ t.distinct;
    bounded = omega (arith, length-insert m key (or_empty (lookup m key) ++ now ∷ []), t.bounded);
    same = rw lookup-insert (elim (Bool-cases (key == k)) [
      | inl e ↦
          let key_is : key ≡ k = (string_eq.same_iff key k).0 e in
          rw e (
            rw key_is (
              keep_if-append _ _ _
              ∙ ap (λ l. l ++ keep_if (is_recent now) (now ∷ [])) t.same
              ∙ sym (keep_if-append _ h _)))
      | inr e ↦ rw e t.same
    ]);
  }

  remove-Tracks : (key : String) → Tracks n now k (remove m key) (if key == k then [] else h)
  remove-Tracks key = record {
    distinct = remove-IsMap m key t.distinct;
    bounded = omega (arith, length-remove m key, t.bounded);
    same = rw lookup-remove (elim (Bool-cases (key == k)) [ inl e ↦ rw e | inr e ↦ rw e t.same ]);
  }

step-Tracks :
    (n now : ℕ) (k : String) (s : Limiter) (h : List ℕ) (op : Op)
    → now ≤ time_after now op
    → n + is_fail op ≤ max_tracked_login_ips
    → Tracks n now k s.login_attempts h
    → Tracks (n + is_fail op) (time_after now op) k (step s op).login_attempts (next_history k h op)
unfolding step record_failure throttled clear_failures
step-Tracks n now k s h (fail t action key) le fits tr =
    prune-Tracks (insert-Tracks (prune-Tracks (later-Tracks tr t le) (omega arith)) key) fits
step-Tracks n now k s h (check t action key) le fits tr =
    rw add-zero (prune-Tracks (later-Tracks tr t le) (omega arith))
step-Tracks n now k s h (clear key) le fits tr = rw add-zero (remove-Tracks tr key)

run-Tracks :
    (n now : ℕ) (k : String) (s : Limiter) (h : List ℕ) (ops : List Op)
    → InOrder now ops
    → n + failures ops ≤ max_tracked_login_ips
    → Tracks n now k s.login_attempts h
    → Tracks (n + failures ops) (last_time now ops) k (run s ops).login_attempts (history k h ops)
unfolding run failures last_time history
run-Tracks n now k s h [] ordered fits tr = rw add-zero tr
run-Tracks n now k s h (op ∷ ops) ordered fits tr = rw (← add_assoc) (
    run-Tracks (n + is_fail op) (time_after now op) k (step s op) (next_history k h op) ops
      ordered.1 (omega arith) (step-Tracks n now k s h op ordered.0 (omega arith) tr))

abbrev pub new_limiter : Limiter
new_limiter = record { login_attempts = []; global_failures = [] }

-- The bucket that a check at `now` reads holds the failures of the history that are recent.
pub bucket-history :
    (ops : List Op) (now : ℕ) (k : String)
    → InOrder 0 ops
    → last_time 0 ops ≤ now
    → failures ops ≤ max_tracked_login_ips
    → or_empty (lookup (prune_login_attempts now (run new_limiter ops)).login_attempts k)
      ≡ keep_if (is_recent now) (history k [] ops)
unfolding prune_login_attempts lookup
bucket-history ops now k ordered le fits =
    let start : Tracks 0 0 k [] [] = record { distinct = tt; bounded = omega arith; same = refl } in
    let tr = run-Tracks 0 0 k new_limiter [] ops ordered (omega arith) start in
    lookup-pruned (later-Tracks tr now le) (omega arith)
