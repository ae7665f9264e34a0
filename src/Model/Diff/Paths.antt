-- ===== src/Model/Diff/Paths.antt =====
-- internal/model/model.go: `ElementPathParts` and `GenericPath`, the readers of the paths that
-- `ElementPath` writes.
pub mod Generic
use mathlib.Core.Path.{subst}
use mathlib.Core.List.{append_assoc}
use tail_state.Prelude.{
  Bool, Option, [], ap, arith, bind_some, contains, contains-append, drop, false, if◌then◌else◌,
  is_empty, leb, length, length-append, le→leb, nat_beq, nat_eq, none, not, refl, some, string_eq,
  suc, take, true, ℕ, ◌&&◌, ◌++◌, ◌+◌, ◌-◌, ◌==◌, ◌||◌, ◌∙◌, ◌∷◌, ◌≡◌, ◌≤◌,
}
use tail_state.Text.{Text, contains_any, eq_text, eq_text_refl, str, text_eq, text_ordered}
use tail_state.Model.{Json, json_object, member}
use tail_state.Model.Diff.{element_identity, element_path, is_bracket, is_unusable, scalar_text}

-- `strings.LastIndexByte`, with no index for -1.
unfoldable pub last_index_byte : Text → ℕ → Option ℕ
last_index_byte [] c = none
last_index_byte (d ∷ s) c = elim (last_index_byte s c) [
  | some i ↦ some (suc i)
  | none ↦ if nat_beq d c then some 0 else none
]

-- `strings.HasSuffix`.
unfoldable pub has_suffix : Text → Text → Bool
unfolding eq_text
has_suffix s suffix = leb (length suffix) (length s) && drop (length s - length suffix) s == suffix

-- `s[low:high]`.
abbrev pub slice : Text → ℕ → ℕ → Text
slice s low high = take (high - low) (drop low s)

-- `ElementPathParts`.
unfoldable pub element_path_parts : Text → Option (Text × Text)
unfolding has_suffix last_index_byte
element_path_parts path =
    if not (has_suffix path (str "]")) then none else elim (last_index_byte path b'[') [
      | none ↦ none
      | some open_at ↦
          if nat_beq open_at 0 || nat_beq (open_at + 2) (length path)
          then none
          else some (take open_at path, slice path (open_at + 1) (length path - 1))
    ]

-- The loop of `GenericPath`. Brackets are single bytes, so it may go by bytes.
unfoldable pub generic_from : Bool → Text → Text
generic_from inside [] = []
generic_from inside (c ∷ path) =
    if nat_beq c b'['
    then c ∷ generic_from true path
    else if nat_beq c b']'
    then c ∷ generic_from false path
    else if inside
    then generic_from inside path
    else c ∷ generic_from inside path

-- `GenericPath`.
unfoldable pub generic_path : Text → Text
unfolding generic_from contains
generic_path path = if contains path b'[' then generic_from false path else path

take-append : (s t : Text) → take (length s) (s ++ t) ≡ s
take-append [] t = refl
take-append (c ∷ s) t = ap (λ r. c ∷ r) (take-append s t)

drop-append : (s t : Text) → drop (length s) (s ++ t) ≡ t
drop-append [] t = refl
drop-append (c ∷ s) t = drop-append s t

drop-append_next : (s t : Text) (c : ℕ) → drop (suc (length s)) (s ++ (c ∷ t)) ≡ t
drop-append_next [] t c = refl
drop-append_next (d ∷ s) t c = drop-append_next s t c

last_index_byte-absent : (s : Text) (c : ℕ) → contains s c ≡ false → last_index_byte s c ≡ none
unfolding last_index_byte contains
last_index_byte-absent [] c h = refl
last_index_byte-absent (d ∷ s) c h = ground (arith, last_index_byte-absent s c)

last_index_byte-append :
    (s t : Text) (c : ℕ)
    → last_index_byte t c ≡ none
    → last_index_byte (s ++ (c ∷ t)) c ≡ some (length s)
unfolding last_index_byte
last_index_byte-append [] t c h = rw h (ground arith)
last_index_byte-append (d ∷ s) t c h = rw (last_index_byte-append s t c h) refl

-- An identity holds no bracket.
pub no_bracket :
    (id : Text) (c : ℕ)
    → is_bracket c ≡ true
    → contains_any id is_bracket ≡ false
    → contains id c ≡ false
unfolding contains contains_any
no_bracket [] c b h = refl
no_bracket (d ∷ id) c b h = ground (arith, no_bracket id c b)

pub element_identity-usable :
    (key : Text) (value : Json) (id : Text)
    → element_identity key value ≡ some id
    → (is_empty id ≡ false) × (contains_any id is_bracket ≡ false)
unfolding element_identity is_unusable
element_identity-usable key (json_object ms) id h =
    let (found, e, f) =
      bind_some (scalar_text (member ms key)) (λ i. if is_unusable i then none else some i) h in
    ground arith
element_identity-usable key _ id h = absurd (cc h)

-- Texts that are no shorter than the suffix that they are built with end in it.
has_suffix-append : (s t : Text) → has_suffix (s ++ t) t ≡ true
unfolding has_suffix
has_suffix-append s t =
    let at : length (s ++ t) - length t ≡ length s = omega (arith, length-append s t) in
    rw
      (
        at,
        drop-append,
        eq_text_refl,
        le→leb (length t) (length (s ++ t)) (omega (arith, length-append s t)),
      )
      refl

length-nonempty : (s : Text) → is_empty s ≡ false → 1 ≤ length s
length-nonempty [] h = absurd (cc h)
length-nonempty (c ∷ s) h = omega arith

module _ (path id : Text) where
  length-element_path : length (element_path path id) ≡ length path + length id + 2
  unfolding element_path
  length-element_path =
      omega (arith, length-append path (b'[' ∷ id ++ str "]"), length-append id (str "]"))

  has_suffix-element_path : has_suffix (element_path path id) (str "]") ≡ true
  unfolding element_path
  has_suffix-element_path =
      subst (λ s. has_suffix s (str "]") ≡ true) (append_assoc path (b'[' ∷ id) (str "]"))
        (has_suffix-append (path ++ (b'[' ∷ id)) (str "]"))

  last_index_byte-element_path :
      contains_any id is_bracket ≡ false
      → last_index_byte (element_path path id) b'[' ≡ some (length path)
  unfolding element_path contains
  last_index_byte-element_path h = last_index_byte-append path (id ++ str "]") b'[' (
      last_index_byte-absent (id ++ str "]") b'['
        (contains-append id (str "]") b'[' ∙ rw (no_bracket id b'[' refl h) refl))

  take-element_path : take (length path) (element_path path id) ≡ path
  unfolding element_path
  take-element_path = take-append path (b'[' ∷ id ++ str "]")

  slice-element_path :
      slice (element_path path id) (length path + 1) (length (element_path path id) - 1) ≡ id
  unfolding element_path
  slice-element_path =
      let one : length path + 1 ≡ suc (length path) = omega arith in
      let width : length (element_path path id) - 1 - suc (length path) ≡ length id =
        omega (arith, length-element_path) in
      rw (one, width, drop-append_next) (take-append id (str "]"))

-- The path of an identified element of a list is split again into the path of the list and the
-- identity: for every list path but the empty one and every identity that `element_identity` gives.
pub element_path_parts-element_path :
    (path key : Text) (value : Json) (id : Text)
    → is_empty path ≡ false
    → element_identity key value ≡ some id
    → element_path_parts (element_path path id) ≡ some (path, id)
unfolding element_path_parts
element_path_parts-element_path path key value id nonempty identity =
    let (id_nonempty, plain) = element_identity-usable key value id identity in
    let not_first : nat_beq (length path) 0 ≡ false =
      ground (arith, length-nonempty path nonempty) in
    let not_last : nat_beq (length path + 2) (length (element_path path id)) ≡ false =
      ground (arith, length-nonempty id id_nonempty, length-element_path path id) in
    rw
      (
        has_suffix-element_path path id,
        last_index_byte-element_path path id plain,
        not_first,
        not_last,
        slice-element_path path id,
      )
      (ap (λ s. some (s, id)) (take-element_path path id))
