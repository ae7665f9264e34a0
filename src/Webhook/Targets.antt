-- ===== src/Webhook/Targets.antt =====
-- internal/webhook/webhook.go: the collectors that `CollectorsFor` names.
use mathlib.Core.Path.{subst}
use tail_state.Prelude.{
  Bool, Bool-cases, Every, Every-sorted_set, List, Option, [], arith, contains, contains-keep_if,
  false, if◌then◌else◌, inl, inr, keep_if, leb, length, length-keep_if, length-sorted_set, nat_eq,
  none, refl, some, sorted_set, sorted_set-ext, string_eq, true, ◌++◌, ◌==◌, ◌>>=◌, ◌∷◌, ◌≡◌, ◌≤◌,
}
use tail_state.Text.{
  Text, contains_any, eq_text, eq_text_iff, str, text_eq, text_ordered, to_lower, trim_space,
}
use tail_state.Webhook.{Event}
use tail_state.Webhook.Verify.{
  collect, collectors_for, collectors_of, device_events, user_events, webhook_events,
}
use tail_state.Store.Metadata.{valid_value}
use tail_state.Model.Encoding.{quote}

abbrev all_names : List Text
all_names =
    str "devices"
    ∷ str "device_details"
    ∷ str "users"
    ∷ str "user_invites"
    ∷ str "policy"
    ∷ str "webhooks"
    ∷ []

abbrev pub IsTarget : Text → Type 0
IsTarget name =
    (contains all_names name ≡ true)
    × (valid_value name ≡ true)
    × (trim_space name ≡ name)
    × (leb (length (quote name)) 20 ≡ true)

abbrev AllTargets : Option (List Text) → Type 0
AllTargets none = Unit
AllTargets (some names) = Every IsTarget names

-- Whichever of the tests holds.
choice-AllTargets :
    (a b c d : Bool)
    → AllTargets (
        if a
        then some (str "devices" ∷ str "device_details" ∷ [])
        else if b
        then some (str "users" ∷ str "user_invites" ∷ [])
        else if c
        then some (str "policy" ∷ [])
        else if d
        then some (str "webhooks" ∷ [])
        else none)
unfolding contains eq_text contains_any trim_space quote
choice-AllTargets true b c d = ((refl, refl, refl, refl), ((refl, refl, refl, refl), tt))
choice-AllTargets false true c d = ((refl, refl, refl, refl), ((refl, refl, refl, refl), tt))
choice-AllTargets false false true d = ((refl, refl, refl, refl), tt)
choice-AllTargets false false false true = ((refl, refl, refl, refl), tt)
choice-AllTargets false false false false = tt

collectors_of-AllTargets : (event_type : Text) → AllTargets (collectors_of event_type)
unfolding collectors_of
collectors_of-AllTargets event_type =
    let name = to_lower (trim_space event_type) in
    choice-AllTargets (contains device_events name) (contains user_events name)
      (name == str "policyupdate") (contains webhook_events name)

Every-join : (xs ys : List Text) → Every IsTarget xs → Every IsTarget ys → Every IsTarget (xs ++ ys)
Every-join [] ys h k = k
Every-join (x ∷ xs) ys h k = (h.0, Every-join xs ys h.1 k)

join-AllTargets :
    (o p : Option (List Text))
    → AllTargets o
    → AllTargets p
    → AllTargets (o >>= (λ here. p >>= (λ rest. some (here ++ rest))))
join-AllTargets none p h k = tt
join-AllTargets (some here) none h k = tt
join-AllTargets (some here) (some rest) h k = Every-join here rest h k

collect-AllTargets : (events : List Event) → AllTargets (collect events)
unfolding collect
collect-AllTargets [] = tt
collect-AllTargets (event ∷ events) =
    join-AllTargets (collectors_of event.event_type) (collect events)
      (collectors_of-AllTargets event.event_type) (collect-AllTargets events)

contains-targets :
    (names : List Text) (a : Text)
    → Every IsTarget names
    → contains names a ≡ true
    → contains all_names a ≡ true
unfolding contains
contains-targets [] a h k = absurd (cc k)
contains-targets (x ∷ names) a h k = elim (Bool-cases (x == a)) [
  | inl same ↦
      let is : x ≡ a = (eq_text_iff x a).0 same in subst (λ y. contains all_names y ≡ true) is h.0.0
  | inr other ↦ contains-targets names a h.1 (ground (arith, other, k))
]

same_names :
    (names : List Text)
    → Every IsTarget names
    → (a : Text) → contains names a ≡ contains (keep_if (contains names) all_names) a
same_names names h a =
    let kept = contains-keep_if (contains names) all_names a in
    elim (Bool-cases (contains names a)) [
      | inl there ↦ ground (arith, kept, there, contains-targets names a h there)
      | inr absent ↦ ground (arith, kept, absent)
    ]

-- However many events there were, there are no more names than these.
sorted-targets :
    (names : List Text) → Every IsTarget names → length (sorted_set text_ordered names) ≤ 6
sorted-targets names h =
    let some_names = keep_if (contains names) all_names in
    let same : sorted_set text_ordered names ≡ sorted_set text_ordered some_names =
      sorted_set-ext text_ordered names some_names (same_names names h) in
    rw same (
      omega (
        arith,
        length-sorted_set text_ordered some_names,
        length-keep_if (contains names) all_names,
      ))

targets-of :
    (o : Option (List Text))
    → AllTargets o
    → let names : List Text = elim o [ none ↦ [] | some found ↦ sorted_set text_ordered found ] in
      Every IsTarget names × (length names ≤ 6)
targets-of none h = (tt, omega arith)
targets-of (some found) h = (Every-sorted_set IsTarget text_ordered found h, sorted-targets found h)

pub collectors_for-targets :
    (events : List Event)
    → Every IsTarget (collectors_for events) × (length (collectors_for events) ≤ 6)
unfolding collectors_for
collectors_for-targets events = targets-of (collect events) (collect-AllTargets events)
