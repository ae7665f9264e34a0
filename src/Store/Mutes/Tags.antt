-- ===== src/Store/Mutes/Tags.antt =====
-- A tag rule never mutes the tagging of a resource.
use mathlib.Core.Path.{subst}
use tail_state.Prelude.{
  ==_refl, Bool, Bool-cases, Distinct, List, Option, Option-cases, [], ap, arith, contains,
  every_of, false, if◌then◌else◌, inl, inr, length, nat_eq, none, not, refl, some, some_of,
  string_eq, suc, true, unique-Distinct, ◌==◌, ◌||◌, ◌∙◌, ◌∷◌, ◌≡◌,
}
use tail_state.Text.{Text, equal_fold, str, text_eq, text_ordered}
use tail_state.Model.{Change, Json, field_root, json_object}
use tail_state.Store.Mutes.Evaluate.{
  MuteSet, has_muted_tag, is_changed, same_tags, snapshot_tags, tag_muted, tags_in,
}

-- `right` without the first occurrence of `x`.
remove_one : Text → List Text → List Text
remove_one x [] = []
remove_one x (y ∷ ys) = let rest = remove_one x ys in if y == x then ys else y ∷ rest

length-remove_one :
    (x : Text) (ys : List Text) → contains ys x ≡ true → length ys ≡ suc (length (remove_one x ys))
unfolding remove_one contains
length-remove_one x [] h = absurd (cc h)
length-remove_one x (y ∷ ys) h = elim (Bool-cases (y == x)) [
  | inl same ↦ rw same refl
  | inr other ↦ rw other (ap suc (length-remove_one x ys (ground (arith, h, other))))
]

contains-remove_one :
    (x : Text) (ys : List Text) (a : Text)
    → (x == a) ≡ false
    → contains (remove_one x ys) a ≡ contains ys a
unfolding remove_one contains
contains-remove_one x [] a other = refl
contains-remove_one x (y ∷ ys) a other = elim (Bool-cases (y == x)) [
  | inl same ↦ let is : y ≡ x = (text_eq.same_iff y x).0 same in rw same (ground (arith, is, other))
  | inr differs ↦ rw differs (ap (λ b. (y == a) || b) (contains-remove_one x ys a other))
]

-- A list of tags in which none occurs twice.
abbrev NoneTwice : List Text → Type 0
NoneTwice tags = Distinct text_ordered tags

every_of-contains :
    (p : Text → Bool) (xs : List Text) (a : Text)
    → every_of p xs ≡ true
    → contains xs a ≡ true
    → p a ≡ true
unfolding every_of contains
every_of-contains p [] a h k = absurd (cc k)
every_of-contains p (x ∷ xs) a h k = elim (Bool-cases (x == a)) [
  | inl same ↦
      let is : x ≡ a = (text_eq.same_iff x a).0 same in
      subst (λ y. p y ≡ true) is (ground (arith, h))
  | inr other ↦ every_of-contains p xs a (ground (arith, h)) (ground (arith, k, other))
]

inside_rest :
    (x : Text) (xs right : List Text)
    → contains xs x ≡ false
    → ((a : Text) → contains (x ∷ xs) a ≡ true → contains right a ≡ true)
    → (a : Text) → contains xs a ≡ true
    → contains (remove_one x right) a ≡ true
unfolding contains
inside_rest x xs right once inside a h = elim (Bool-cases (x == a)) [
  | inl same ↦
      let is : x ≡ a = (text_eq.same_iff x a).0 same in
      absurd (ground (arith, h, subst (λ y. contains xs y ≡ false) is once))
  | inr other ↦ contains-remove_one x right a other ∙ inside a (rw other h)
]

-- As many different members as the other list has, all of them in it, are all that it has.
covers :
    (left right : List Text)
    → NoneTwice left
    → length left ≡ length right
    → ((a : Text) → contains left a ≡ true → contains right a ≡ true)
    → (a : Text) → contains right a ≡ true
    → contains left a ≡ true
unfolding contains
covers [] [] once same inside a h = h
covers [] (y ∷ ys) once same inside a h = absurd (omega (arith, same))
covers (x ∷ xs) right once same inside a h = elim (Bool-cases (x == a)) [
  | inl is ↦ rw is refl
  | inr other ↦
      let there : contains right x ≡ true = inside x (rw (==_refl x) refl) in
      let shorter = length-remove_one x right there in
      rw other (
        covers xs (remove_one x right) once.1 (omega (arith, same, shorter))
          (inside_rest x xs right once.0 inside) a (contains-remove_one x right a other ∙ h))
]

snapshot_tags-NoneTwice : (raw : Option Json) → NoneTwice (snapshot_tags raw)
unfolding snapshot_tags
snapshot_tags-NoneTwice (some (json_object members)) = elim (Option-cases (tags_in members [])) [
  | inl failed ↦ rw (snapshot_tags, failed) tt
  | inr (tags, made) ↦ rw (snapshot_tags, made) (unique-Distinct text_ordered [] tags)
]
snapshot_tags-NoneTwice (some _) = tt
snapshot_tags-NoneTwice none = tt

-- Equal tag sets have the same members.
same_tags-members :
    (left right : List Text)
    → NoneTwice left
    → same_tags left right ≡ true
    → (tag : Text) → contains left tag ≡ contains right tag
unfolding same_tags
same_tags-members left right once h tag =
    let inside = λ (a : Text) (k : contains left a ≡ true).
      every_of-contains (λ t. contains right t) left a (ground (arith, h)) k in
    let back = covers left right once (ground (arith, h)) inside tag in
    ground (arith, inside tag, back)

same_tags-muted :
    (m : MuteSet) (change : Change) (before after : Option Json)
    → is_changed change ≡ true
    → tag_muted m change before after ≡ true
    → same_tags (snapshot_tags before) (snapshot_tags after) ≡ true
unfolding tag_muted
same_tags-muted m change before after is muted =
    elim (Bool-cases (not (has_muted_tag m before) || not (has_muted_tag m after))) [
      | inl untagged ↦ absurd (cc (rw (is, untagged) at muted))
      | inr tagged ↦
          elim (Bool-cases
            (some_of (λ f. equal_fold (field_root f.field) (str "tags")) change.fields)) [
              | inl listed ↦ absurd (cc (rw (is, tagged, listed) at muted))
              | inr silent ↦ rw (is, tagged, silent) at muted
            ]
    ]

-- When a tag rule mutes a changed resource, every tag is carried before the change exactly if it is
-- carried after it: adding or removing a tag is never silenced.
pub tag_muted-same_tags :
    (m : MuteSet) (change : Change) (before after : Option Json)
    → is_changed change ≡ true
    → tag_muted m change before after ≡ true
    → (tag : Text) → contains (snapshot_tags before) tag ≡ contains (snapshot_tags after) tag
unfolding tag_muted
tag_muted-same_tags m change before after is muted tag =
    same_tags-members (snapshot_tags before) (snapshot_tags after) (snapshot_tags-NoneTwice before)
      (same_tags-muted m change before after is muted) tag
