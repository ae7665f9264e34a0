-- ===== src/Model/Diff/Paths/Generic.antt =====
-- `GenericPath` of internal/model/model.go: paths without the identities of their elements.
use mathlib.Core.List.{append_assoc}
use tail_state.Prelude.{
  Bool, [], ap, arith, contains, false, nat_eq, refl, some, string_eq, sym, true, ◌++◌, ◌∙◌, ◌∷◌,
  ◌≡◌,
}
use tail_state.Text.{Text, contains_any, str, text_eq, text_ordered}
use tail_state.Model.{Json}
use tail_state.Model.Diff.{element_identity, element_path, is_bracket}
use tail_state.Model.Diff.Paths.{element_identity-usable, generic_from, generic_path}

generic_from-id :
    (id rest : Text)
    → contains_any id is_bracket ≡ false
    → generic_from true (id ++ rest) ≡ generic_from true rest
unfolding generic_from contains_any
generic_from-id [] rest h = refl
generic_from-id (c ∷ id) rest h = ground (arith, generic_from-id id rest)

generic_from-element :
    (inside : Bool) (path id rest : Text)
    → contains_any id is_bracket ≡ false
    → generic_from inside (path ++ (b'[' ∷ id ++ rest))
      ≡ generic_from inside (path ++ (b'[' ∷ rest))
unfolding generic_from
generic_from-element inside [] id rest h = ap (λ s. b'[' ∷ s) (generic_from-id id rest h)
generic_from-element inside (c ∷ path) id rest h = ground (
  arith,
  generic_from-element true path id rest,
  generic_from-element false path id rest,
  generic_from-element inside path id rest,
)

contains-bracket : (path rest : Text) → contains (path ++ (b'[' ∷ rest)) b'[' ≡ true
unfolding contains
contains-bracket [] rest = refl
contains-bracket (c ∷ path) rest = ground (arith, contains-bracket path rest)

element_path-append :
    (path id rest : Text) → element_path path id ++ rest ≡ path ++ (b'[' ∷ id ++ (b']' ∷ rest))
unfolding element_path
element_path-append path id rest =
    append_assoc path (b'[' ∷ id ++ str "]") rest
    ∙ ap (λ s. path ++ (b'[' ∷ s)) (append_assoc id (str "]") rest)

-- The generic path without the identity.
generic_path-plain :
    (path id rest : Text)
    → contains_any id is_bracket ≡ false
    → generic_path (element_path path id ++ rest)
      ≡ generic_from false (path ++ (b'[' ∷ b']' ∷ rest))
unfolding generic_path
generic_path-plain path id rest h =
    rw (element_path-append path id rest, contains-bracket path (id ++ (b']' ∷ rest)))
      (generic_from-element false path id (b']' ∷ rest) h)

-- Two elements of one list have the same generic path, and so have the same fields of both:
-- `GenericPath` forgets the identity, for identities that `element_identity` gives.
pub generic_path-element_path :
    (path rest key key' : Text) (value value' : Json) (id id' : Text)
    → element_identity key value ≡ some id
    → element_identity key' value' ≡ some id'
    → generic_path (element_path path id ++ rest) ≡ generic_path (element_path path id' ++ rest)
generic_path-element_path path rest key key' value value' id id' h h' =
    generic_path-plain path id rest (element_identity-usable key value id h).1
    ∙ sym (generic_path-plain path id' rest (element_identity-usable key' value' id' h').1)
