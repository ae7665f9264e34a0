-- ===== src/Monitor/Scopes/Union.antt =====
-- internal/monitor/triggers.go: the coalesced poll covers what each trigger asks for.
use mathlib.Core.Path.{subst}
use tail_state.Prelude.{
  Bool, Bool-cases, Every, Every-stable_sort, Every-unique, List, Option, Option-cases, [], ap,
  arith, contains, contains-append, contains-unique, every_of, false, if◌then◌else◌, inl, inr,
  is_empty, keep_if, nat_eq, none, not, refl, some, some_of, stable_insert, stable_sort, string_eq,
  sym, true, unique, ◌&&◌, ◌++◌, ◌==◌, ◌>>=◌, ◌||◌, ◌∙◌, ◌∷◌, ◌≡◌,
}
use tail_state.Text.{Text, eq_text, eq_text_iff, text_eq, text_ordered, trim_space}
use tail_state.Monitor.Scopes.{
  all_collectors, gather_scopes, names_in, normalize_collectors, polled_before, union_scopes,
}
use tail_state.Text.Fold.{trim_space_idem}

-- The specification: a scope is broad if no name in it is more than space, or one is not known.
abbrev pub is_broad : List Text → Bool
is_broad scope =
    every_of (λ n. is_empty (trim_space n)) scope
    || some_of (λ n. not (is_empty (trim_space n)) && not (contains all_collectors (trim_space n)))
        scope

-- A known collector is asked for by name, space beside it aside, or by a scope that is broad.
abbrev pub asks_for : List Text → Text → Bool
asks_for scope c =
    contains all_collectors c && (is_broad scope || some_of (λ n. trim_space n == c) scope)

-- The collectors that the code takes a trigger's scope for.
abbrev wanted : List Text → List Text
wanted scope =
    let normal = normalize_collectors scope in if is_empty normal then all_collectors else normal

-- A known name as it is kept.
abbrev IsName : Text → Type 0
IsName c = (contains all_collectors c ≡ true) × (trim_space c ≡ c) × (is_empty c ≡ false)

contains-stable_insert :
    (less : Text → Text → Bool) (x a : Text) (xs : List Text)
    → contains (stable_insert less x xs) a ≡ (x == a) || contains xs a
unfolding stable_insert contains
contains-stable_insert less x a [] = refl
contains-stable_insert less x a (y ∷ ys) = ground (arith, contains-stable_insert less x a ys)

contains-stable_sort :
    (less : Text → Text → Bool) (a : Text) (xs : List Text)
    → contains (stable_sort less xs) a ≡ contains xs a
unfolding stable_sort contains
contains-stable_sort less a [] = refl
contains-stable_sort less a (x ∷ xs) =
    contains-stable_insert less x a (stable_sort less xs)
    ∙ ap (λ b. (x == a) || b) (contains-stable_sort less a xs)

contains-sorted :
    (a : Text) (names : List Text)
    → contains (stable_sort polled_before (unique [] names)) a ≡ contains names a
contains-sorted a names =
    contains-stable_sort polled_before a (unique [] names)
    ∙ unfold contains in contains-unique [] names a

names_in-IsName :
    (collectors : List Text)
    → every_of (contains all_collectors) (names_in collectors) ≡ true
    → Every IsName (names_in collectors)
unfolding every_of keep_if
names_in-IsName [] h = tt
names_in-IsName (c ∷ collectors) h = elim (Bool-cases (is_empty (trim_space c))) [
  | inl blank ↦ rw blank (names_in-IsName collectors (rw blank at h))
  | inr named_one ↦
      let both : contains all_collectors (trim_space c)
            && every_of (contains all_collectors) (names_in collectors)
          ≡ true =
        rw named_one at h in
      let known : contains all_collectors (trim_space c) ≡ true = ground (arith, both) in
      let others : every_of (contains all_collectors) (names_in collectors) ≡ true =
        ground (arith, both) in
      rw named_one ((known, trim_space_idem c, named_one), names_in-IsName collectors others)
]

-- Names that are kept are kept again.
names_in-names : (names : List Text) → Every IsName names → names_in names ≡ names
unfolding keep_if
names_in-names [] h = refl
names_in-names (c ∷ names) h = rw (h.0.1, h.0.2) (ap (λ rest. c ∷ rest) (names_in-names names h.1))

every_of-known :
    (names : List Text) → Every IsName names → every_of (contains all_collectors) names ≡ true
unfolding every_of
every_of-known [] h = refl
every_of-known (c ∷ names) h = rw (h.0.0) (every_of-known names h.1)

normalize_collectors-names :
    (names : List Text) (c : Text)
    → Every IsName names
    → contains (normalize_collectors names) c ≡ contains names c
unfolding normalize_collectors
normalize_collectors-names names c h =
    rw (names_in-names names h, every_of-known names h) (contains-sorted c names)

normalize_collectors-IsName :
    (collectors : List Text) → Every IsName (normalize_collectors collectors)
unfolding normalize_collectors
normalize_collectors-IsName collectors =
    elim (Bool-cases (every_of (contains all_collectors) (names_in collectors))) [
      | inl known ↦ rw known (
          Every-stable_sort polled_before IsName (unique [] (names_in collectors))
            (Every-unique IsName [] (names_in collectors) (names_in-IsName collectors known)))
      | inr unknown ↦ rw unknown tt
    ]

Every-join : (xs ys : List Text) → Every IsName xs → Every IsName ys → Every IsName (xs ++ ys)
Every-join [] ys h k = k
Every-join (x ∷ xs) ys h k = (h.0, Every-join xs ys h.1 k)

contains-IsName :
    (names : List Text) (c : Text)
    → Every IsName names
    → contains names c ≡ true
    → contains all_collectors c ≡ true
unfolding contains
contains-IsName [] c h k = absurd (cc k)
contains-IsName (x ∷ names) c h k = elim (Bool-cases (x == c)) [
  | inl same ↦ subst (λ y. contains all_collectors y ≡ true) ((eq_text_iff x c).0 same) h.0.0
  | inr other ↦ contains-IsName names c h.1 (ground (arith, other, k))
]

wanted-known :
    (scope : List Text) (c : Text)
    → contains (wanted scope) c ≡ true
    → contains all_collectors c ≡ true
wanted-known scope c h = elim (Bool-cases (is_empty (normalize_collectors scope))) [
  | inl whole ↦ rw whole at h
  | inr some_of_them ↦
      contains-IsName (normalize_collectors scope) c (normalize_collectors-IsName scope)
        (rw some_of_them at h)
]

-- What the gathered scopes hold, where none is every collector.
Gathered : List (List Text) → Option (List Text) → Type 0
Gathered scopes none = Unit
Gathered scopes (some union) = Every IsName union

gather_scopes-Gathered : (scopes : List (List Text)) → Gathered scopes (gather_scopes scopes)
unfolding gather_scopes Gathered
gather_scopes-Gathered [] = tt
gather_scopes-Gathered (scope ∷ scopes) =
    elim (Bool-cases (is_empty (normalize_collectors scope))) [
      | inl whole ↦ rw whole tt
      | inr part ↦ rw part (joined (gather_scopes scopes) (gather_scopes-Gathered scopes))
    ]
  where
    joined :
        (o : Option (List Text))
        → Gathered scopes o
        → Gathered (scope ∷ scopes) (o >>= (λ union. some (normalize_collectors scope ++ union)))
    joined none k = tt
    joined (some union) k =
        Every-join (normalize_collectors scope) union (normalize_collectors-IsName scope) k

gather_scopes-cons :
    (scope : List Text) (scopes : List (List Text)) (union : List Text)
    → gather_scopes (scope ∷ scopes) ≡ some union
    → (is_empty (normalize_collectors scope) ≡ false)
      × ((rest : List Text) × (gather_scopes scopes ≡ some rest)
          × (normalize_collectors scope ++ rest ≡ union))
unfolding gather_scopes
gather_scopes-cons scope scopes union e =
    elim (Bool-cases (is_empty (normalize_collectors scope))) [
      | inl whole ↦ absurd (cc (rw whole at e))
      | inr part ↦ elim (Option-cases (gather_scopes scopes)) [
        | inl missing ↦ absurd (cc (rw (part, missing) at e))
        | inr (rest, there) ↦ (part, (rest, there, cc (rw (part, there) at e)))
      ]
    ]

-- One of the scopes is in what was gathered.
gather_scopes-holds :
    (former later : List (List Text)) (scope union : List Text) (c : Text)
    → gather_scopes (former ++ (scope ∷ later)) ≡ some union
    → contains (wanted scope) c ≡ true
    → contains union c ≡ true
gather_scopes-holds [] later scope union c e h =
    let (part, (rest, there, is)) = gather_scopes-cons scope later union e in
    let here : contains (normalize_collectors scope) c ≡ true = rw part at h in
    subst (λ u. contains u c ≡ true) is
      (ground (arith, here, contains-append (normalize_collectors scope) rest c))
gather_scopes-holds (other ∷ former) later scope union c e h =
    let (part, (rest, there, is)) = gather_scopes-cons other (former ++ (scope ∷ later)) union e in
    subst (λ u. contains u c ≡ true) is
      (ground (
        arith,
        gather_scopes-holds former later scope rest c there h,
        contains-append (normalize_collectors other) rest c,
      ))

union_scopes-gathered :
    (scopes : List (List Text))
    → (gather_scopes scopes ≡ none → union_scopes scopes ≡ all_collectors)
      × ((union : List Text)
          → gather_scopes scopes ≡ some union
          → union_scopes scopes ≡ normalize_collectors union)
unfolding union_scopes
union_scopes-gathered scopes =
    (λ missing. rw (missing, union_scopes) refl, λ union there. rw (there, union_scopes) refl)

names_in-blank :
    (scope : List Text) → every_of (λ n. is_empty (trim_space n)) scope ≡ is_empty (names_in scope)
unfolding every_of keep_if
names_in-blank [] = refl
names_in-blank (n ∷ scope) = ground (arith, names_in-blank scope)

names_in-known :
    (scope : List Text)
    → every_of (contains all_collectors) (names_in scope)
      ≡ not (
          some_of
            (λ n. not (is_empty (trim_space n)) && not (contains all_collectors (trim_space n)))
            scope)
unfolding every_of keep_if some_of
names_in-known [] = refl
names_in-known (n ∷ scope) = elim (Bool-cases (is_empty (trim_space n))) [
  | inl blank ↦ rw blank (names_in-known scope)
  | inr named_one ↦ rw named_one (ground (arith, names_in-known scope))
]

no_blank_collector : (c : Text) → contains all_collectors c ≡ true → is_empty c ≡ false
unfolding contains eq_text
no_blank_collector [] h = absurd (cc h)
no_blank_collector (b ∷ c) h = refl

names_in-named :
    (scope : List Text) (c : Text)
    → is_empty c ≡ false
    → some_of (λ n. trim_space n == c) scope ≡ true
    → contains (names_in scope) c ≡ true
unfolding keep_if some_of contains
names_in-named [] c full h = absurd (cc h)
names_in-named (n ∷ scope) c full h = elim (Bool-cases (trim_space n == c)) [
  | inl here ↦
      let is : trim_space n ≡ c = (eq_text_iff (trim_space n) c).0 here in
      let kept : is_empty (trim_space n) ≡ false = rw is full in rw kept (ground (arith, here))
  | inr other ↦
      let rest = names_in-named scope c full (ground (arith, h, other)) in
      elim (Bool-cases (is_empty (trim_space n))) [
        | inl blank ↦ rw blank rest
        | inr kept ↦ rw kept (ground (arith, rest))
      ]
]

normalize_collectors-broad :
    (scope : List Text) → is_broad scope ≡ true → normalize_collectors scope ≡ []
unfolding normalize_collectors
normalize_collectors-broad scope h =
    elim (Bool-cases (every_of (contains all_collectors) (names_in scope))) [
      | inl known ↦
          let blank : is_empty (names_in scope) ≡ true =
            ground (arith, h, known, names_in-known scope, names_in-blank scope) in
          rw known (nothing (names_in scope) blank)
      | inr unknown ↦ rw unknown refl
    ]
  where
    nothing :
        (names : List Text)
        → is_empty names ≡ true
        → stable_sort polled_before (unique [] names) ≡ []
    nothing [] k = unfold unique stable_sort in refl
    nothing (x ∷ names) k = absurd (cc k)

normalize_collectors-narrow :
    (scope : List Text) (c : Text)
    → is_broad scope ≡ false
    → contains (normalize_collectors scope) c ≡ contains (names_in scope) c
unfolding normalize_collectors
normalize_collectors-narrow scope c h =
    let known : every_of (contains all_collectors) (names_in scope) ≡ true =
      ground (arith, h, names_in-known scope) in
    rw known (contains-sorted c (names_in scope))

not_nothing : (names : List Text) (c : Text) → contains names c ≡ true → is_empty names ≡ false
unfolding contains
not_nothing [] c h = absurd (cc h)
not_nothing (x ∷ names) c h = refl

-- What a scope asks for is what the code takes it for.
wanted-asked :
    (scope : List Text) (c : Text) → asks_for scope c ≡ true → contains (wanted scope) c ≡ true
wanted-asked scope c h =
    let known : contains all_collectors c ≡ true = ground (arith, h) in
    elim (Bool-cases (is_broad scope)) [
      | inl broad ↦ rw (normalize_collectors-broad scope broad) known
      | inr narrow ↦
          let is_named : some_of (λ n. trim_space n == c) scope ≡ true =
            ground (arith, h, narrow) in
          let there : contains (normalize_collectors scope) c ≡ true =
            normalize_collectors-narrow scope c narrow
            ∙ names_in-named scope c (no_blank_collector c known) is_named in
          rw (not_nothing (normalize_collectors scope) c there) there
    ]

-- The poll for several triggers leaves out no collector that one of them asks for: a known one that
-- its scope names, spaces aside, or any known one where its scope names none or has a name that is
-- not known.
pub union_scopes-covers :
    (former later : List (List Text)) (scope : List Text) (c : Text)
    → asks_for scope c ≡ true
    → contains (union_scopes (former ++ (scope ∷ later))) c ≡ true
unfolding Gathered
union_scopes-covers former later scope c asked =
    let h = wanted-asked scope c asked in
    let scopes = former ++ (scope ∷ later) in
    elim (Option-cases (gather_scopes scopes)) [
      | inl missing ↦
          subst (λ u. contains u c ≡ true) (sym ((union_scopes-gathered scopes).0 missing))
            (wanted-known scope c h)
      | inr (union, there) ↦
          subst (λ u. contains u c ≡ true) (sym ((union_scopes-gathered scopes).1 union there))
            (normalize_collectors-names union c
                (subst (Gathered scopes) there (gather_scopes-Gathered scopes))
              ∙ gather_scopes-holds former later scope union c there h)
    ]
