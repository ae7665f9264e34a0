-- ===== src/Web/Throttle/Prune.antt =====
-- What pruning and eviction do to the buckets.
use tail_state.Prelude.{
  ℕ, zero, suc, ◌≤◌, String, false, List, [], ◌∷◌, length, keep_if, Dict, lookup, has, ◌≡◌, refl,
  arith, IsMap, lookup-of-not-has, Equal, string_eq,
}
use tail_state.Web.Throttle.{max_tracked_login_ips, is_recent, prune_entries, evict, or_empty}

module _ {ℓ} {K : Type ℓ} ⦃e : Equal K⦄ where
  has-prune_entries :
      (now : ℕ) (m : Dict K (List ℕ)) (k : K)
      → has m k ≡ false
      → has (prune_entries now m) k ≡ false
  unfolding prune_entries has
  has-prune_entries now [] k h = refl
  has-prune_entries now ((j, attempts) ∷ m) k h = ground (arith, has-prune_entries now m k)

  pub prune_entries-IsMap : (now : ℕ) (m : Dict K (List ℕ)) → IsMap m → IsMap (prune_entries now m)
  unfolding prune_entries
  prune_entries-IsMap now [] h = tt
  prune_entries-IsMap now ((j, attempts) ∷ m) h =
      ground (arith, has-prune_entries now m j, prune_entries-IsMap now m)

  -- Pruning filters every bucket; a deleted entry reads as the empty bucket.
  pub lookup-prune_entries :
      (now : ℕ) (m : Dict K (List ℕ)) (k : K)
      → IsMap m
      → or_empty (lookup (prune_entries now m) k) ≡ keep_if (is_recent now) (or_empty (lookup m k))
  unfolding prune_entries lookup keep_if
  lookup-prune_entries now [] k h = refl
  lookup-prune_entries now ((j, attempts) ∷ m) k h = ground (
    arith,
    e.same_iff j k,
    lookup-prune_entries now m k,
    has-prune_entries now m j,
    lookup-of-not-has (prune_entries now m) j,
  )

pub length-prune_entries {ℓ} :
    {K : Type ℓ} (now : ℕ) (m : Dict K (List ℕ)) → length (prune_entries now m) ≤ length m
unfolding prune_entries
length-prune_entries now [] = omega arith
length-prune_entries now ((j, attempts) ∷ m) = ground (arith, length-prune_entries now m)

pub evict_idle :
    (fuel : ℕ) (m : Dict String (List ℕ)) → length m ≤ max_tracked_login_ips → evict fuel m ≡ m
unfolding evict
evict_idle zero m h = refl
evict_idle (suc fuel) m h = ground arith

-- What has left the window stays outside.
pub keep_if-later :
    (now later : ℕ) (xs : List ℕ)
    → now ≤ later
    → keep_if (is_recent later) (keep_if (is_recent now) xs) ≡ keep_if (is_recent later) xs
unfolding keep_if
keep_if-later now later [] h = refl
keep_if-later now later (x ∷ xs) h = ground (arith, keep_if-later now later xs h)
