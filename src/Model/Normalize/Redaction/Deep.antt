-- ===== src/Model/Normalize/Redaction/Deep.antt =====
-- internal/model/model.go: `NormalizeFor` hides what it must at every depth of a value.
use tail_state.Prelude.{
  Bool, Bool-cases, Every, Every-stable_sort, List, Option, [], false, inl, inr, nat_eq, none, refl,
  some, string_eq, true, ◌∷◌, ◌≡◌,
}
use tail_state.Text.{Text, text_eq, text_ordered}
use tail_state.Model.{
  Elements, Json, Members, element, json_array, json_object, named, no_elements, no_members,
}
use tail_state.Model.Encoding.{elements_of}
use tail_state.Model.Diff.{child_path, compact_key, ordered_array}
use tail_state.Model.Normalize.Walk.{
  arranged, elements_from, encoding_before, normalize, normalize_elements, normalize_for,
  normalize_members, treated, treatment, written,
}
use tail_state.Model.Normalize.Hides.{
  Hidden, Hidden-configured, Hidden-fingerprint, HiddenElements, HiddenField, HiddenMembers,
  IsDigest,
}
use tail_state.Model.Normalize.Redaction.{treated-Hidden}
use tail_state.Model.Normalize.{tenant_key_section}

HiddenElements-elements_from :
    (collector : Text) (vs : List Json)
    → Every (Hidden collector false) vs
    → HiddenElements collector (elements_from vs)
unfolding Hidden
HiddenElements-elements_from collector [] h = tt
HiddenElements-elements_from collector (v ∷ vs) h =
    (h.0, HiddenElements-elements_from collector vs h.1)

Every-elements_of :
    (collector : Text) (xs : Elements)
    → HiddenElements collector xs
    → Every (Hidden collector false) (elements_of xs)
unfolding Hidden elements_of
Every-elements_of collector no_elements h = tt
Every-elements_of collector (element v vs) h = (h.0, Every-elements_of collector vs h.1)

-- Sorting an array shows nothing new.
arranged-Hidden :
    (collector path : Text) (xs : Elements)
    → HiddenElements collector xs
    → HiddenElements collector (arranged collector path xs)
unfolding arranged
arranged-Hidden collector path xs h = elim (Bool-cases (ordered_array collector path)) [
  | inl ordered ↦ rw ordered h
  | inr free ↦ rw free (
      HiddenElements-elements_from collector _ (
        Every-stable_sort encoding_before (Hidden collector false) (elements_of xs)
          (Every-elements_of collector xs h)))
]

-- A key that is written, or not, before the others.
written-Hidden :
    (collector : Text) (tenant_keys : Bool) (key : Text) (o : Option Json) (rest : Members)
    → ((w : Json)
        → o ≡ some w
        → HiddenField collector tenant_keys
            (compact_key key)
            w
            (Hidden collector (tenant_key_section collector (compact_key key)) w))
    → HiddenMembers collector tenant_keys rest
    → HiddenMembers collector tenant_keys (written key o rest)
unfolding Hidden
written-Hidden collector tenant_keys key none rest h k = k
written-Hidden collector tenant_keys key (some w) rest h k = (h w refl, k)

module _ (digest : Text → Text) (digest_hex : (text : Text) → IsDigest (digest text)) where
  mutual
    unfolding normalize Hidden

    normalize-Hidden :
        (collector : Text) (root tenant_keys : Bool) (path : Text) (v : Json)
        → Hidden collector tenant_keys (normalize digest collector root tenant_keys path v)
    normalize-Hidden collector root tenant_keys path (json_object ms) =
        normalize_members-Hidden collector root tenant_keys path ms
    normalize-Hidden collector root tenant_keys path (json_array xs) =
        arranged-Hidden collector path _ (normalize_elements-Hidden collector path xs)
    normalize-Hidden collector root tenant_keys path _ = tt

    normalize_elements-Hidden :
        (collector path : Text) (xs : Elements)
        → HiddenElements collector (normalize_elements digest collector path xs)
    normalize_elements-Hidden collector path no_elements = tt
    normalize_elements-Hidden collector path (element v vs) =
        (normalize-Hidden collector false false path v, normalize_elements-Hidden collector path vs)

    normalize_members-Hidden :
        (collector : Text) (root tenant_keys : Bool) (path : Text) (ms : Members)
        → HiddenMembers collector tenant_keys
            (normalize_members digest collector root tenant_keys path ms)
    normalize_members-Hidden collector root tenant_keys path no_members = tt
    normalize_members-Hidden collector root tenant_keys path (named key v ms) =
        let name = compact_key key in
        let section = tenant_key_section collector name in
        let below = normalize digest collector false section (child_path path key) v in
        written-Hidden collector tenant_keys key
          (treated digest (treatment collector root tenant_keys path name v) v below) _
          (λ w k.
            treated-Hidden digest digest_hex collector root tenant_keys path name v below w
              (Hidden collector section) _ refl k
              (normalize-Hidden collector false section (child_path path key) v)
              (Hidden-fingerprint collector section) (Hidden-configured collector section))
          (normalize_members-Hidden collector root tenant_keys path ms)

-- Wherever in a snapshot that `NormalizeFor` makes a key is not a tenant's own name and stands for
-- a secret, a URL or an endpoint, it holds an object with a SHA-256 in hexadecimal digits and
-- nothing else; a status, for which the collectors of users, posture and log streams have a rule
-- of their own, is left out of the claim with what is in it. The digest is one of 64 digits.
pub normalize_for-Hidden :
    (digest : Text → Text)
    → ((text : Text) → IsDigest (digest text))
    → (collector : Text) (value : Json)
    → Hidden collector false (normalize_for digest collector value)
unfolding normalize_for
normalize_for-Hidden digest digest_hex collector value =
    normalize-Hidden digest digest_hex collector true false [] value
