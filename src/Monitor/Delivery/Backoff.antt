-- ===== src/Monitor/Delivery/Backoff.antt =====
-- The delays of `retryDelay`.
use native.Mathlib.Nat.{pow-suc}
use tail_state.Prelude.{
  Bool-cases, arith, inl, inr, ltb, max, min, nat_eq, refl, string_eq, suc, ℕ, ◌*◌, ◌+◌, ◌/◌, ◌<◌,
  ◌≡◌, ◌≤◌,
}
use tail_state.Text.{text_eq, text_ordered}
use tail_state.Store.Triggers.{second}
use tail_state.Monitor.Delivery.{base_delay, hour, retry_delay}

base_delay-suc : (attempt : ℕ) → base_delay (suc attempt) ≡ min (2 * base_delay attempt) hour
base_delay-suc attempt = elim (Bool-cases (ltb attempt 10)) [
  | inl early ↦
      let here : min attempt 10 ≡ attempt = ground arith in
      let next : min (suc attempt) 10 ≡ suc attempt = ground arith in
      rw (here, next) (ground (arith, pow-suc 2 attempt))
  | inr late ↦
      let here : min attempt 10 ≡ 10 = ground arith in
      let next : min (suc attempt) 10 ≡ 10 = ground arith in rw (here, next) refl
]

-- What `rand.Int64N` promises: a draw below the bound.
abbrev pub DrawsBelow : (ℕ → ℕ) → Type 0
DrawsBelow draw = (bound : ℕ) → 0 < bound → draw bound < bound

drawn_in : (base d : ℕ) → d < max (base / 5) 1 → base + d ≤ base + base / 5
drawn_in base d h = omega (arith, h)

-- For draws below their bounds, the delay before a retry is at least the base delay and at most a
-- fifth more; the base delay is five seconds at first and doubles with each attempt up to an hour.
pub retry_delay_doubles :
    (draw : ℕ → ℕ) (attempt : ℕ)
    → DrawsBelow draw
    → (base_delay 0 ≡ 5 * second)
      × (base_delay (suc attempt) ≡ min (2 * base_delay attempt) hour)
      × (base_delay attempt ≤ retry_delay draw attempt)
      × (retry_delay draw attempt ≤ base_delay attempt + base_delay attempt / 5)
unfolding retry_delay
retry_delay_doubles draw attempt below = (
  refl,
  base_delay-suc attempt,
  omega arith,
  (drawn_in (base_delay attempt) _ (below (max (base_delay attempt / 5) 1) (omega arith))),
)
