-- ===== src/Text/Truncate.antt =====
-- internal/textutil/textutil.go, and `truncateBytes` of internal/notify/budget.go: shortening at a
-- rune boundary.
pub mod Runes
use tail_state.Prelude.{
  Bool, [], arith, get_elem?, if◌then◌else◌, leb, length, length-append, length-take, ltb, nat_beq,
  none, some, suc, take, zero, ℕ, ◌++◌, ◌-◌, ◌||◌, ◌∷◌, ◌≤◌,
}
use tail_state.Text.{Text}

-- `utf8.RuneStart`: every byte but 10xxxxxx.
abbrev pub rune_start : ℕ → Bool
rune_start b = ltb b 128 || leb 192 b

-- `value[i]`, which the code reads below the length only.
abbrev pub byte_at : Text → ℕ → ℕ
byte_at value i = elim (get_elem? value i) [ none ↦ 0 | some b ↦ b ]

-- `for cut > 0 && !utf8.RuneStart(value[cut]) { cut-- }`
unfoldable pub back_up : Text → ℕ → ℕ
back_up value zero = zero
back_up value (suc cut) =
    let rest = back_up value cut in if rune_start (byte_at value (suc cut)) then suc cut else rest

-- The UTF-8 bytes of the ellipsis.
abbrev pub ellipsis : Text
ellipsis = 0xE2 ∷ 0x80 ∷ 0xA6 ∷ []

-- `maxBytes <= 0` is 0 here: a negative bound gives what 0 gives.
unfoldable pub truncate : Text → ℕ → Text
unfolding back_up
truncate value max_bytes =
    if nat_beq max_bytes 0
    then []
    else if leb (length value) max_bytes
    then value
    else if ltb max_bytes (length ellipsis)
    then take (back_up value max_bytes) value
    else take (back_up value (max_bytes - length ellipsis)) value ++ ellipsis

unfoldable pub truncate_bytes : Text → ℕ → Text
unfolding back_up
truncate_bytes value limit =
    if leb (length value) limit then value else take (back_up value limit) value

pub back_up-le : (value : Text) (cut : ℕ) → back_up value cut ≤ cut
unfolding back_up
back_up-le value zero = omega arith
back_up-le value (suc cut) = ground (arith, back_up-le value cut)

-- The result never exceeds the caller's bound.
pub length-truncate : (value : Text) (max_bytes : ℕ) → length (truncate value max_bytes) ≤ max_bytes
unfolding truncate
length-truncate value n = ground (
  arith,
  back_up-le value n,
  back_up-le value (n - 3),
  length-take (back_up value n) value,
  length-take (back_up value (n - 3)) value,
  length-append (take (back_up value (n - 3)) value) ellipsis,
)
