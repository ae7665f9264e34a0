-- ===== src/Store/Triggers/Readable.antt =====
-- internal/store/webhooks.go: when a row that is recorded can be read.
use tail_state.Prelude.{
  Bool, Bool-cases, Every, Every-keep_if, Every-sorted_set, List, Option, [], arith, every_of,
  false, inl, inr, is_empty, keep_if, leb, length, length-keep_if, length-sorted_set, ltb, map,
  nat_beq, nat_eq, none, not, refl, some, string_eq, true, ℕ, ◌&&◌, ◌++◌, ◌<◌, ◌||◌, ◌∙◌, ◌∷◌, ◌≡◌,
  ◌≤◌,
}
use tail_state.Text.{
  Text, contains_any, is_control, text_eq, text_ordered, trim_left, trim_right, trim_space,
}
use tail_state.Store.Metadata.{
  checked_names, decode_metadata, metadata_of, names_json, sorted_unique, valid_value,
}
use tail_state.Store.Table.{find_row}
use tail_state.Store.Triggers.{Trigger, is_decodable}
use tail_state.Store.Triggers.Record.{new_row}

pub length-sorted_unique : (values : List Text) → length (sorted_unique values) ≤ length values
unfolding sorted_unique
length-sorted_unique values = omega (
  arith,
  length-sorted_set text_ordered (keep_if (λ v. not (is_empty v)) (map trim_space values)),
  length-keep_if (λ v. not (is_empty v)) (map trim_space values),
  length-trimmed values,
)
  where
    length-trimmed : (xs : List Text) → length (map trim_space xs) ≡ length xs
    length-trimmed [] = refl
    length-trimmed (x ∷ xs) = omega (arith, length-trimmed xs)

-- What holds of the trimmed names holds of the list that is kept.
pub Every-sorted_unique :
    (P : Text → Type 0) (values : List Text)
    → Every (λ v. P (trim_space v)) values
    → Every P (sorted_unique values)
unfolding sorted_unique
Every-sorted_unique P values h =
    Every-sorted_set P text_ordered (keep_if (λ v. not (is_empty v)) (map trim_space values))
      (Every-keep_if (λ v. not (is_empty v)) P (map trim_space values) (mapped values h))
  where
    mapped : (xs : List Text) → Every (λ v. P (trim_space v)) xs → Every P (map trim_space xs)
    mapped [] k = tt
    mapped (x ∷ xs) k = (k.0, mapped xs k.1)

trim_left-fits :
    (s : Text)
    → (length (trim_left s) ≤ length s)
      × (contains_any s is_control ≡ false → contains_any (trim_left s) is_control ≡ false)
unfolding trim_left contains_any
trim_left-fits [] = (omega arith, λ h. refl)
trim_left-fits (c ∷ s) = ground (arith, trim_left-fits s)

trim_right-fits :
    (s : Text)
    → (length (trim_right s) ≤ length s)
      × (contains_any s is_control ≡ false → contains_any (trim_right s) is_control ≡ false)
unfolding trim_right contains_any
trim_right-fits [] = (omega arith, λ h. refl)
trim_right-fits (c ∷ s) = ground (arith, trim_right-fits s)

-- Trimming keeps a value within the bounds.
pub valid_value-trim_space : (s : Text) → valid_value s ≡ true → valid_value (trim_space s) ≡ true
unfolding trim_space
valid_value-trim_space s h = ground (arith, h, trim_right-fits s, trim_left-fits (trim_right s))

every_of-valid :
    (names : List Text)
    → Every (λ v. valid_value v ≡ true) names
    → every_of valid_value names ≡ true
unfolding every_of
every_of-valid [] h = refl
every_of-valid (x ∷ names) h = rw (h.0) (every_of-valid names h.1)

names_json-cons : (names : List Text) → 0 < length (names_json names)
names_json-cons names = unfold names_json in omega arith

abbrev is_some : Option (List Text) → Bool
is_some none = false
is_some (some names) = true

-- A column that is written within the other bounds decodes exactly if it is not too long.
decode_metadata-written :
    (limit : ℕ) (names : List Text)
    → Every (λ v. valid_value v ≡ true) names
    → length names ≤ limit
    → is_some (decode_metadata limit (metadata_of names)) ≡ leb (length (names_json names)) 16384
unfolding decode_metadata checked_names
decode_metadata-written limit names valid few =
    let fits : ltb limit (length (sorted_unique names)) ≡ false =
      ground (arith, few, length-sorted_unique names) in
    let too_long : (nat_beq (length (names_json names)) 0 || ltb 16384 (length (names_json names)))
        ≡ not (leb (length (names_json names)) 16384) =
      ground (arith, names_json-cons names) in
    elim (Bool-cases (leb (length (names_json names)) 16384)) [
      | inl short ↦ rw (too_long, short, every_of-valid names valid, fits) refl
      | inr long ↦ rw (too_long, long) refl
    ]

-- The row of a delivery within the other bounds is readable exactly if its JSON is not too long.
pub is_decodable-new_row :
    (id now : ℕ) (hash : Text) (event_types collectors : List Text)
    → Every (λ v. valid_value v ≡ true) event_types
    → Every (λ v. valid_value v ≡ true) collectors
    → length event_types ≤ 100
    → length collectors ≤ 32
    → length (names_json collectors) ≤ 16384
    → is_decodable (new_row id now hash event_types collectors)
      ≡ leb (length (names_json event_types)) 16384
unfolding is_decodable
is_decodable-new_row id now hash event_types collectors v w few fewer short =
    both (decode_metadata 100 (metadata_of event_types))
      (decode_metadata 32 (metadata_of collectors)) (decode_metadata-written 100 event_types v few)
      (decode_metadata-written 32 collectors w fewer ∙ ground (arith, short))
  where
    both :
        (a b : Option (List Text)) {test : Bool}
        → is_some a ≡ test
        → is_some b ≡ true
        → ((elim a [ none ↦ false | some names ↦ true ])
            && (elim b [ none ↦ false | some names ↦ true ]))
          ≡ test
    both none b h k = h
    both (some names) none h k = absurd (cc k)
    both (some names) (some others) h k = h

-- The ledger has no damaged row.
abbrev pub all_readable : List Trigger → Bool
all_readable rows = every_of is_decodable rows

pub find_row-readable :
    (test : Trigger → Bool) (rows : List Trigger) (t : Trigger)
    → all_readable rows ≡ true
    → find_row test rows ≡ some t
    → is_decodable t ≡ true
unfolding find_row every_of
find_row-readable test [] t h e = absurd (cc e)
find_row-readable test (r ∷ rows) t h e = elim (Bool-cases (test r)) [
  | inl here ↦ let same : r ≡ t = cc (rw here at e) in rw (← same) (ground (arith, h))
  | inr other ↦ find_row-readable test rows t (ground (arith, h)) (rw other at e)
]

pub all_readable-append :
    (rows : List Trigger) (t : Trigger)
    → all_readable rows ≡ true
    → is_decodable t ≡ true
    → all_readable (rows ++ t ∷ []) ≡ true
unfolding every_of
all_readable-append [] t h k = rw k refl
all_readable-append (r ∷ rows) t h k = ground (arith, h, all_readable-append rows t)
