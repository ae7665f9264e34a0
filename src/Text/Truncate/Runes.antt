-- ===== src/Text/Truncate/Runes.antt =====
-- Shortening keeps whole runes.
use native.Mathlib.Nat.{zero-add, suc-add}
use mathlib.Core.List.{append-nil}
use tail_state.Prelude.{
  Bool-cases, List, [], ap, arith, false, if◌then◌else◌, inl, inr, leb, length, length-append,
  length-take, ltb, refl, suc, sym, take, true, zero, ℕ, ◌++◌, ◌+◌, ◌-◌, ◌<◌, ◌∙◌, ◌∷◌, ◌≡◌, ◌≤◌,
  ◌⊎◌,
}
use tail_state.Text.{Text}
use tail_state.Text.Truncate.{
  back_up, back_up-le, byte_at, ellipsis, length-truncate, rune_start, truncate, truncate_bytes,
}

-- A text as its runes: each a start byte with its continuation bytes.
abbrev pub Rune : Type 0
Rune = ℕ × List ℕ

unfoldable pub encode : List Rune → Text
encode [] = []
encode ((b, more) ∷ runes) = b ∷ (more ++ encode runes)

abbrev pub AllContinue : List ℕ → Type 0
AllContinue [] = Unit
AllContinue (b ∷ more) = (rune_start b ≡ false) × AllContinue more

abbrev pub IsUtf8 : List Rune → Type 0
IsUtf8 [] = Unit
IsUtf8 ((b, more) ∷ runes) = (rune_start b ≡ true) × AllContinue more × IsUtf8 runes

-- A position that is 0 or holds a start byte is the end of a number of whole runes.
abbrev pub IsBoundary : Text → ℕ → Type 0
IsBoundary value i = (i ≡ 0) ⊎ (rune_start (byte_at value i) ≡ true)

back_up-IsBoundary : (value : Text) (cut : ℕ) → IsBoundary value (back_up value cut)
unfolding back_up
back_up-IsBoundary value zero = inl refl
back_up-IsBoundary value (suc cut) = elim (Bool-cases (rune_start (byte_at value (suc cut)))) [
  | inl t ↦ rw t (inr t)
  | inr f ↦ rw f (back_up-IsBoundary value cut)
]

-- No start byte stands between the cut and the limit.
back_up_largest :
    (value : Text) (limit i : ℕ)
    → back_up value limit < i
    → i ≤ limit
    → rune_start (byte_at value i) ≡ false
unfolding back_up
back_up_largest value zero i h k = absurd (omega arith)
back_up_largest value (suc limit) i h k =
    elim (Bool-cases (rune_start (byte_at value (suc limit)))) [
      | inl t ↦ absurd (omega (arith, rw t at h))
      | inr f ↦ ground (arith, f, back_up_largest value limit i, rw f at h)
    ]

past_continuation :
    (more rest : List ℕ) (j : ℕ)
    → AllContinue more
    → rune_start (byte_at (more ++ rest) j) ≡ true
    → (i : ℕ) × (j ≡ length more + i) × (rune_start (byte_at rest i) ≡ true)
past_continuation [] rest j h s = (j, omega arith, s)
past_continuation (c ∷ more) rest zero h s = absurd (clash (sym h.0 ∙ s))
  where
    clash : false ≡ true → ⊥
    clash p = cc
past_continuation (c ∷ more) rest (suc j) h s =
    let (i, e, t) = past_continuation more rest j h.1 s in (i, omega arith, t)

take-append_right :
    (more rest : List ℕ) (i : ℕ) → take (length more + i) (more ++ rest) ≡ more ++ take i rest
take-append_right [] rest i = rw zero-add
take-append_right (c ∷ more) rest i = rw suc-add (ap (λ l. c ∷ l) (take-append_right more rest i))

boundary-take :
    (runes : List Rune) (i : ℕ)
    → IsUtf8 runes
    → i < length (encode runes)
    → IsBoundary (encode runes) i
    → (k : ℕ) × (take i (encode runes) ≡ encode (take k runes))
unfolding encode
boundary-take runes zero h lt b = (0, refl)
boundary-take [] (suc i) h lt b = absurd (omega arith)
boundary-take ((c, more) ∷ runes) (suc i) h lt (inl e) = absurd (omega arith)
boundary-take ((c, more) ∷ runes) (suc i) h lt (inr t) =
    let (j, e, s) = past_continuation more (encode runes) i h.1 t in
    let (k, q) =
      boundary-take runes j h.2 (omega (arith, length-append more (encode runes))) (inr s) in
    let step : take i (more ++ encode runes) ≡ more ++ encode (take k runes) =
      ap (λ n. take n (more ++ encode runes)) e
      ∙ take-append_right more (encode runes) j
      ∙ ap (λ l. more ++ l) q in
    (suc k, ap (λ l. c ∷ l) step)

byte_at-append_right :
    (more rest : List ℕ) (i : ℕ) → byte_at (more ++ rest) (length more + i) ≡ byte_at rest i
byte_at-append_right [] rest i = rw zero-add
byte_at-append_right (c ∷ more) rest i = rw suc-add (byte_at-append_right more rest i)

-- Whole runes end where the next rune starts, or where the text ends.
whole_runes_end :
    (runes : List Rune) (j : ℕ)
    → IsUtf8 runes
    → (rune_start (byte_at (encode runes) (length (encode (take j runes)))) ≡ true)
      ⊎ (length (encode (take j runes)) ≡ length (encode runes))
unfolding encode
whole_runes_end [] zero h = inr refl
whole_runes_end [] (suc j) h = inr refl
whole_runes_end ((c, more) ∷ runes) zero h = inl h.0
whole_runes_end ((c, more) ∷ runes) (suc j) h = elim (whole_runes_end runes j h.2) [
  | inl t ↦ inl (rw length-append (rw byte_at-append_right t))
  | inr e ↦ inr (
      omega
        (arith, length-append more (encode (take j runes)), length-append more (encode runes), e))
]

take_runes_all : (runes : List Rune) → encode (take (length runes) runes) ≡ encode runes
unfolding encode
take_runes_all [] = refl
take_runes_all ((c, more) ∷ runes) = ap (λ l. c ∷ (more ++ l)) (take_runes_all runes)

length_runes-le :
    (runes : List Rune) (j : ℕ) → length (encode (take j runes)) ≤ length (encode runes)
unfolding encode
length_runes-le [] zero = omega arith
length_runes-le [] (suc j) = omega arith
length_runes-le ((c, more) ∷ runes) zero = omega arith
length_runes-le ((c, more) ∷ runes) (suc j) = omega (
  arith,
  length-append more (encode (take j runes)),
  length-append more (encode runes),
  length_runes-le runes j,
)

-- A boundary up to the limit is not past the cut.
boundary-le-back_up :
    (value : Text) (limit p : ℕ)
    → p ≤ limit
    → rune_start (byte_at value p) ≡ true
    → p ≤ back_up value limit
boundary-le-back_up value limit p le t = elim (Bool-cases (leb p (back_up value limit))) [
  | inl small ↦ ground arith
  | inr large ↦ ground (arith, back_up_largest value limit p)
]

-- The cut that the loop finds in a longer text is the longest prefix of whole runes below `limit`.
cut_lem :
    (runes : List Rune) (limit : ℕ)
    → IsUtf8 runes
    → limit < length (encode runes)
    → (k : ℕ) × (take (back_up (encode runes) limit) (encode runes) ≡ encode (take k runes))
      × ((j : ℕ)
          → length (encode (take j runes)) ≤ limit
          → length (encode (take j runes)) ≤ length (encode (take k runes)))
cut_lem runes limit h lt =
    let cut = back_up (encode runes) limit in
    let le = back_up-le (encode runes) limit in
    let (k, e) =
      boundary-take runes cut h (omega (arith, le)) (back_up-IsBoundary (encode runes) limit) in
    let size : length (encode (take k runes)) ≡ cut =
      omega (arith, ap length e, length-take cut (encode runes), le) in
    (
      k,
      e,
      λ j fits. elim (whole_runes_end runes j h) [
        | inl t ↦ omega (arith, size, boundary-le-back_up (encode runes) limit _ fits t)
        | inr all ↦ absurd (omega arith)
      ],
    )

-- A valid text is cut to its longest prefix of whole runes that fits.
pub truncate_bytes-whole_runes :
    (runes : List Rune) (limit : ℕ)
    → IsUtf8 runes
    → (k : ℕ) × (truncate_bytes (encode runes) limit ≡ encode (take k runes))
      × (length (truncate_bytes (encode runes) limit) ≤ limit)
      × ((j : ℕ)
          → length (encode (take j runes)) ≤ limit
          → length (encode (take j runes)) ≤ length (encode (take k runes)))
unfolding truncate_bytes
truncate_bytes-whole_runes runes limit h = elim (Bool-cases (leb (length (encode runes)) limit)) [
  | inl fits ↦ rw fits (
    length runes,
    sym (take_runes_all runes),
    ground arith,
    λ j _. rw take_runes_all (length_runes-le runes j),
  )
  | inr over ↦
      let (k, e, longest) = cut_lem runes limit h (ground arith) in
      rw over (
        k,
        e,
        omega (
          arith,
          back_up-le (encode runes) limit,
          length-take (back_up (encode runes) limit) (encode runes),
        ),
        longest,
      )
]

-- A bound without room for the ellipsis.
truncate_small :
    (value : Text) (max_bytes : ℕ)
    → ltb max_bytes (length ellipsis) ≡ true
    → max_bytes < length value
    → truncate value max_bytes ≡ take (back_up value max_bytes) value ++ []
unfolding truncate
truncate_small value zero small lt = refl
truncate_small value (suc n) small lt = rw (append-nil, small) (ground arith)

truncate_large :
    (value : Text) (max_bytes : ℕ)
    → ltb max_bytes (length ellipsis) ≡ false
    → max_bytes < length value
    → truncate value max_bytes
      ≡ take (back_up value (max_bytes - length ellipsis)) value ++ ellipsis
unfolding truncate
truncate_large value max_bytes large lt = ground arith

truncate_fits :
    (value : Text) (max_bytes : ℕ) → length value ≤ max_bytes → truncate value max_bytes ≡ value
unfolding truncate
truncate_fits [] zero h = refl
truncate_fits (c ∷ value) zero h = absurd (omega arith)
truncate_fits value (suc n) h = ground arith

-- A valid text that fits is unchanged; a longer one becomes a prefix of whole runes, with the
-- ellipsis where the bound has room for it; the result is within the bound.
pub truncate-whole_runes :
    (runes : List Rune) (max_bytes : ℕ)
    → IsUtf8 runes
    → (length (truncate (encode runes) max_bytes) ≤ max_bytes)
      × (length (encode runes) ≤ max_bytes → truncate (encode runes) max_bytes ≡ encode runes)
      × (k : ℕ) × (max_bytes < length (encode runes)
          → truncate (encode runes) max_bytes
            ≡ encode (take k runes) ++ (if ltb max_bytes (length ellipsis) then [] else ellipsis))
truncate-whole_runes runes max_bytes h =
    let value = encode runes in
    let fits : length value ≤ max_bytes → truncate value max_bytes ≡ value =
      truncate_fits value max_bytes in
    elim (Bool-cases (leb (length value) max_bytes)) [
      | inl short ↦ (length-truncate value max_bytes, fits, 0, λ lt. absurd (ground arith))
      | inr long ↦ elim (Bool-cases (ltb max_bytes (length ellipsis))) [
        | inl small ↦
            let (k, e, _) = cut_lem runes max_bytes h (ground arith) in
            (
              length-truncate value max_bytes,
              fits,
              k,
              λ lt. rw small (truncate_small value max_bytes small lt ∙ ap (λ l. l ++ []) e),
            )
        | inr large ↦
            let (k, e, _) = cut_lem runes (max_bytes - length ellipsis) h (ground arith) in
            (
              length-truncate value max_bytes,
              fits,
              k,
              λ lt. rw large (truncate_large value max_bytes large lt ∙ ap (λ l. l ++ ellipsis) e),
            )
      ]
    ]
