-- ===== src/Web/Throttle/Bounds.antt =====
-- The limiter's memory and the waits it imposes are bounded.
use tail_state.Prelude.{
  ℕ, zero, suc, ◌+◌, ◌≤◌, String, true, ◌||◌, List, [], ◌∷◌, ltb, if◌then◌else◌, length, Dict,
  remove, has, ◌==◌, ◌≡◌, arith, Bool-cases, inl, inr, length-remove-has, ==_refl, string_eq,
}
use tail_state.Web.Throttle.{
  Limiter, max_tracked_login_ips, prune_entries, find_oldest, evict, first_attempt,
  prune_login_attempts,
}

-- The scan returns a key of the map, or the key it started with.
find_oldest-has :
    (m : Dict String (List ℕ)) (key : String) (oldest : ℕ) (whole : Dict String (List ℕ))
    → has whole key ≡ true
    → ((j : String) → has m j ≡ true → has whole j ≡ true)
    → has whole (find_oldest m key oldest) ≡ true
unfolding find_oldest has
find_oldest-has [] key oldest whole h sub = h
find_oldest-has ((k, attempts) ∷ m) key oldest whole h sub =
    let taken = (key == "") || ltb (first_attempt attempts) oldest in
    find_oldest-has m (if taken then k else key) (if taken then first_attempt attempts else oldest)
      whole (elim (Bool-cases taken) [ inl t ↦ rw t (sub k (rw (==_refl k))) | inr f ↦ rw f h ])
      (λ j hj. sub j (elim (Bool-cases (k == j)) [ inl t ↦ rw t | inr f ↦ rw f hj ]))

find_oldest-has_nonempty :
    (k : String) (attempts : List ℕ) (m : Dict String (List ℕ))
    → has ((k, attempts) ∷ m) (find_oldest ((k, attempts) ∷ m) "" 0) ≡ true
unfolding find_oldest has
find_oldest-has_nonempty k attempts m =
    find_oldest-has m k (first_attempt attempts) ((k, attempts) ∷ m) (rw (==_refl k))
      (λ j hj. elim (Bool-cases (k == j)) [ inl t ↦ rw t | inr f ↦ rw f hj ])

evict_bounded :
    (fuel : ℕ) (m : Dict String (List ℕ))
    → length m ≤ fuel + max_tracked_login_ips
    → length (evict fuel m) ≤ max_tracked_login_ips
unfolding evict
evict_bounded zero m h = omega arith
evict_bounded (suc fuel) [] h = ground arith
evict_bounded (suc fuel) ((k, attempts) ∷ m) h = ground (
  arith,
  evict_bounded fuel (remove ((k, attempts) ∷ m) (find_oldest ((k, attempts) ∷ m) "" 0)),
  length-remove-has ((k, attempts) ∷ m) (find_oldest ((k, attempts) ∷ m) "" 0),
  find_oldest-has_nonempty k attempts m,
)

-- Pruning leaves at most `max_tracked_login_ips` client buckets.
pub prune_bounded :
    (now : ℕ) (s : Limiter)
    → length (prune_login_attempts now s).login_attempts ≤ max_tracked_login_ips
unfolding prune_login_attempts
prune_bounded now s =
    let kept = prune_entries now s.login_attempts in evict_bounded (length kept) kept (omega arith)
