-- ===== src/Tests/Text.antt =====
-- Shortening at concrete texts.
use tail_state.Text.{text_eq, text_ordered}
use tail_state.Text.Truncate.{ellipsis, truncate, truncate_bytes}
use tail_state.Text.Truncate.Runes.{
  IsUtf8, Rune, encode, truncate-whole_runes, truncate_bytes-whole_runes,
}
use tail_state.Prelude.{
  List, [], if◌then◌else◌, length, ltb, nat_eq, refl, string_eq, take, ℕ, ◌++◌, ◌<◌, ◌∷◌, ◌≡◌, ◌≤◌,
}

-- "aé" and a three-byte rune.
abbrev accents : List Rune
accents = (b'a', []) ∷ (0xC3, 0xA9 ∷ []) ∷ (0xE2, 0x82 ∷ 0xAC ∷ []) ∷ []

accents-IsUtf8 : IsUtf8 accents
accents-IsUtf8 = (refl, tt, (refl, (refl, tt), (refl, (refl, (refl, tt)), tt)))

truncate-whole_runes_example :
    (length (truncate (encode accents) 5) ≤ 5)
    × (length (encode accents) ≤ 5 → truncate (encode accents) 5 ≡ encode accents)
    × (k : ℕ) × (5 < length (encode accents)
        → truncate (encode accents) 5
          ≡ encode (take k accents) ++ (if ltb 5 (length ellipsis) then [] else ellipsis))
truncate-whole_runes_example = truncate-whole_runes accents 5 accents-IsUtf8

truncate_bytes-whole_runes_example :
    (k : ℕ) × (truncate_bytes (encode accents) 5 ≡ encode (take k accents))
    × (length (truncate_bytes (encode accents) 5) ≤ 5)
    × ((j : ℕ)
        → length (encode (take j accents)) ≤ 5
        → length (encode (take j accents)) ≤ length (encode (take k accents)))
truncate_bytes-whole_runes_example = truncate_bytes-whole_runes accents 5 accents-IsUtf8

-- Five bytes hold the first rune and the ellipsis: a cut inside "é" moves back.
cut_before_rune : truncate (encode accents) 5 ≡ b'a' ∷ ellipsis
unfolding truncate encode
cut_before_rune = refl
