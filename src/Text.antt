-- ===== src/Text.antt =====
-- Go strings as their bytes, with the functions of `strings` and `utf8` that the program calls.
-- `to_lower` and `trim_space` know the ASCII letters and spaces: the identifiers, kinds and tags
-- that the program folds are ASCII, and the model leaves other bytes as they are.
pub mod Truncate
pub mod Fold
use Prim.Native.Char.{code}
use Prim.Native.String
use tail_state.Prelude.{
  Bool, Equal, List, Ordered, String, [], arith, false, if◌then◌else◌, is_empty, leb, ltb, nat_beq,
  nat_eq, refl, string_eq, suc, true, zero, ℕ, ◌%◌, ◌&&◌, ◌++◌, ◌+◌, ◌/◌, ◌||◌, ◌↔◌, ◌∷◌, ◌≡◌,
}

abbrev pub Text : Type 0
Text = List ℕ

-- An ASCII literal.
abbrev pub str : String → Text
str String.[] = []
str (String.◌∷◌ c s) = code c ∷ str s

unfoldable pub eq_text : Text → Text → Bool
eq_text [] [] = true
eq_text (a ∷ s) (b ∷ t) = nat_beq a b && eq_text s t
eq_text _ _ = false

pub eq_text_refl : (s : Text) → eq_text s s ≡ true
unfolding eq_text
eq_text_refl [] = refl
eq_text_refl (a ∷ s) = ground (arith, eq_text_refl s)

eq_text→eq : (s t : Text) → eq_text s t ≡ true → s ≡ t
unfolding eq_text
eq_text→eq [] [] h = refl
eq_text→eq [] (b ∷ t) h = ground arith
eq_text→eq (a ∷ s) [] h = ground arith
eq_text→eq (a ∷ s) (b ∷ t) h = ground (arith, eq_text→eq s t)

pub eq_text_iff : (s t : Text) → (eq_text s t ≡ true) ↔ (s ≡ t)
eq_text_iff s t = (eq_text→eq s t, λ p. rw p (eq_text_refl t))

instance abbrev pub text_eq : Equal Text
text_eq = record { same = eq_text; same_iff = eq_text_iff }

-- The order of `<` on strings: by bytes.
unfoldable pub lt_text : Text → Text → Bool
lt_text s [] = false
lt_text [] (b ∷ t) = true
lt_text (a ∷ s) (b ∷ t) = ltb a b || (nat_beq a b && lt_text s t)

pub lt_text_irrefl : (s : Text) → lt_text s s ≡ false
unfolding lt_text
lt_text_irrefl [] = refl
lt_text_irrefl (a ∷ s) = ground (arith, lt_text_irrefl s)

pub lt_text_trans : (s t u : Text) → lt_text s t ≡ true → lt_text t u ≡ true → lt_text s u ≡ true
unfolding lt_text
lt_text_trans s t [] h k = k
lt_text_trans s [] (c ∷ u) h k = ground arith
lt_text_trans [] (b ∷ t) (c ∷ u) h k = refl
lt_text_trans (a ∷ s) (b ∷ t) (c ∷ u) h k = ground (arith, lt_text_trans s t u)

pub lt_text_total : (s t : Text) → lt_text s t ≡ false → lt_text t s ≡ false → s ≡ t
unfolding lt_text
lt_text_total [] [] h k = refl
lt_text_total [] (b ∷ t) h k = ground arith
lt_text_total (a ∷ s) [] h k = ground arith
lt_text_total (a ∷ s) (b ∷ t) h k = ground (arith, lt_text_total s t)

instance abbrev pub text_ordered : Ordered Text
text_ordered = record {
  lt = lt_text;
  lt_irrefl = lt_text_irrefl;
  lt_trans = lt_text_trans;
  lt_total = lt_text_total;
}

abbrev pub is_space : ℕ → Bool
is_space c = nat_beq c 32 || (leb 9 c && leb c 13)

unfoldable pub trim_left : Text → Text
trim_left [] = []
trim_left (c ∷ s) = let rest = trim_left s in if is_space c then rest else c ∷ s

unfoldable pub trim_right : Text → Text
trim_right [] = []
trim_right (c ∷ s) = let rest = trim_right s in if is_space c && is_empty rest then [] else c ∷ rest

-- `strings.TrimSpace`.
unfoldable pub trim_space : Text → Text
unfolding trim_left trim_right
trim_space s = trim_left (trim_right s)

abbrev pub lower_byte : ℕ → ℕ
lower_byte c = if leb b'A' c && leb c b'Z' then c + 32 else c

-- `strings.ToLower`.
unfoldable pub to_lower : Text → Text
to_lower [] = []
to_lower (c ∷ s) = lower_byte c ∷ to_lower s

-- `strings.EqualFold`.
unfoldable pub equal_fold : Text → Text → Bool
unfolding to_lower eq_text
equal_fold s t = eq_text (to_lower s) (to_lower t)

-- `strings.HasPrefix(s, prefix)`.
unfoldable pub has_prefix : Text → Text → Bool
has_prefix s [] = true
has_prefix [] (p ∷ prefix) = false
has_prefix (c ∷ s) (p ∷ prefix) = nat_beq c p && has_prefix s prefix

-- `strings.ContainsAny`, and `strings.IndexFunc(…) >= 0`.
unfoldable pub contains_any : Text → (ℕ → Bool) → Bool
contains_any [] test = false
contains_any (c ∷ s) test = test c || contains_any s test

-- `unicode.IsControl` on one-byte runes.
abbrev pub is_control : ℕ → Bool
is_control c = ltb c 32 || nat_beq c 127

abbrev pub is_hex : ℕ → Bool
is_hex c = (leb b'0' c && leb c b'9') || (leb b'a' c && leb c b'f') || (leb b'A' c && leb c b'F')

-- `%d`, where the fuel is at least the number.
unfoldable pub digits : ℕ → ℕ → Text
digits zero n = []
digits (suc fuel) n =
    let rest = digits fuel (n / 10) in
    let digit = (b'0' + n % 10) ∷ [] in if ltb n 10 then digit else rest ++ digit

abbrev pub number_text : ℕ → Text
number_text n = digits (suc n) n
