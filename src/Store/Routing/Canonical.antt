-- ===== src/Store/Routing/Canonical.antt =====
-- Normalised routing rules are canonical.
use mathlib.Core.Path.{subst}
use tail_state.Prelude.{
  Bool, Bool-cases, Every, Every-sorted_set, List, Option-cases, [], ap, arith, bind_some,
  contains-sorted_set, false, inl, inr, is_empty, length, nat_beq, nat_eq, none, refl, some, sort,
  sorted_set, sorted_set-ext, string_eq, sym, true, unique, ◌∙◌, ◌∷◌, ◌≡◌, ◌⊎◌,
}
use tail_state.Text.{Text, eq_text, text_eq, text_ordered, to_lower, trim_space}
use tail_state.Text.Fold.{to_lower_idem, trim_space-to_lower, trim_space_idem}
use tail_state.Store.Routing.{
  RoutingRules, all_kinds_dropped, is_change_kind, is_collector_name, normal_values,
  normalize_routing_list, normalize_routing_rules, normalize_severity,
}
use tail_state.Model.Severity.{
  Severity, parse_severity, severity_high, severity_low, severity_medium,
}

-- A value that the loop keeps as it is.
abbrev pub IsNormal : (Text → Bool) → Text → Type 0
IsNormal valid v = (to_lower (trim_space v) ≡ v) × (is_empty v ≡ false) × (valid v ≡ true)

to_lower-trim_space_idem :
    (v : Text) → to_lower (trim_space (to_lower (trim_space v))) ≡ to_lower (trim_space v)
to_lower-trim_space_idem v =
    ap to_lower (trim_space-to_lower (trim_space v))
    ∙ to_lower_idem (trim_space (trim_space v))
    ∙ ap to_lower (trim_space_idem v)

normal_values-IsNormal :
    (valid : Text → Bool) (values vs : List Text)
    → normal_values valid values ≡ some vs
    → Every (IsNormal valid) vs
unfolding normal_values
normal_values-IsNormal valid [] vs h =
    let same : [] ≡ vs = cc h in subst (Every (IsNormal valid)) same tt
normal_values-IsNormal valid (value ∷ values) vs h =
    let v = to_lower (trim_space value) in
    elim (Bool-cases (is_empty v)) [
      | inl blank ↦ normal_values-IsNormal valid values vs (rw blank at h)
      | inr filled ↦ elim (Bool-cases (valid v)) [
        | inr wrong ↦ absurd (ground (arith, h, filled, wrong))
        | inl right ↦ elim (Option-cases (normal_values valid values)) [
          | inl failed ↦ absurd (ground (arith, h, filled, right, failed))
          | inr (rest, made) ↦
              let same : v ∷ rest ≡ vs = ground (arith, h, filled, right, made) in
              subst (Every (IsNormal valid)) same (
                (to_lower-trim_space_idem value, filled, right),
                normal_values-IsNormal valid values rest made,
              )
        ]
      ]
    ]

normal_values-keeps :
    (valid : Text → Bool) (vs : List Text)
    → Every (IsNormal valid) vs
    → normal_values valid vs ≡ some vs
unfolding normal_values
normal_values-keeps valid [] h = refl
normal_values-keeps valid (v ∷ vs) h =
    let (same, filled, right) = h.0 in
    rw same (rw filled (rw right (rw (normal_values-keeps valid vs h.1) refl)))

-- What a normalised list holds passed the test.
pub normalize_routing_list-IsNormal :
    (valid : Text → Bool) (values out : List Text)
    → normalize_routing_list valid values ≡ some out
    → Every (IsNormal valid) out
unfolding normalize_routing_list
normalize_routing_list-IsNormal valid values out h =
    let (seen, made, done) = bind_some (normal_values valid values) _ h in
    let sorted : sorted_set text_ordered seen ≡ out = cc done in
    subst (Every (IsNormal valid)) sorted (
      Every-sorted_set (IsNormal valid) text_ordered seen
        (normal_values-IsNormal valid values seen made))

normalize_routing_list_idem :
    (valid : Text → Bool) (values out : List Text)
    → normalize_routing_list valid values ≡ some out
    → normalize_routing_list valid out ≡ some out
unfolding normalize_routing_list
normalize_routing_list_idem valid values out h =
    let (seen, made, done) = bind_some (normal_values valid values) _ h in
    let sorted : sorted_set text_ordered seen ≡ out = cc done in
    let again : sorted_set text_ordered out ≡ out =
      ap (sorted_set text_ordered) (sym sorted)
      ∙ sorted_set-ext text_ordered (sorted_set text_ordered seen) seen
          (contains-sorted_set text_ordered seen)
      ∙ sorted in
    rw (normal_values-keeps valid out (normalize_routing_list-IsNormal valid values out h))
      (ap some again)

parse_severity-cases :
    (value : Text)
    → (parse_severity value ≡ none)
      ⊎ (parse_severity value ≡ some severity_low)
      ⊎ (parse_severity value ≡ some severity_medium)
      ⊎ (parse_severity value ≡ some severity_high)
unfolding parse_severity
parse_severity-cases value =
    let name = to_lower (trim_space value) in
    elim (Bool-cases (eq_text name severity_low)) [
      | inl low ↦ inr (inl (rw low refl))
      | inr above ↦ elim (Bool-cases (eq_text name severity_medium)) [
        | inl medium ↦ inr (inr (inl (rw above (rw medium refl))))
        | inr other ↦ elim (Bool-cases (eq_text name severity_high)) [
          | inl high ↦ inr (inr (inr (rw above (rw other (rw high refl)))))
          | inr unknown ↦ inl (rw above (rw other (rw unknown refl)))
        ]
      ]
    ]

-- The severities that a canonical rule set may have.
pub normalize_severity-cases :
    (s t : Severity)
    → normalize_severity s ≡ some t
    → (t ≡ []) ⊎ (t ≡ severity_medium) ⊎ (t ≡ severity_high)
unfolding normalize_severity eq_text
normalize_severity-cases s t h = elim (Bool-cases (is_empty (trim_space s))) [
  | inl blank ↦ inl (cc (rw blank at h))
  | inr named ↦ elim (parse_severity-cases s) [
    | inl unknown ↦ absurd (cc (rw (named, unknown) at h))
    | inr (inl low) ↦ inl (cc (rw (named, low) at h))
    | inr (inr (inl medium)) ↦ inr (inl (cc (rw (named, medium) at h)))
    | inr (inr (inr high)) ↦ inr (inr (cc (rw (named, high) at h)))
  ]
]

normalize_severity_idem :
    (s t : Severity) → normalize_severity s ≡ some t → normalize_severity t ≡ some t
unfolding normalize_severity trim_space to_lower eq_text parse_severity
normalize_severity_idem s t h = elim (normalize_severity-cases s t h) [
  | inl blank ↦ rw blank refl
  | inr (inl medium) ↦ rw medium refl
  | inr (inr high) ↦ rw high refl
]

kinds_idem :
    (kinds out : List Text)
    → normalize_routing_list is_change_kind kinds ≡ some out
    → (ks : List Text) × (normalize_routing_list is_change_kind (all_kinds_dropped out) ≡ some ks)
      × (all_kinds_dropped ks ≡ all_kinds_dropped out)
kinds_idem kinds out h = elim (Bool-cases (nat_beq (length out) 3)) [
  | inl all ↦ (
    [],
    rw all (unfold normalize_routing_list normal_values sorted_set unique sort in refl),
    rw all refl,
  )
  | inr few ↦ (out, rw few (normalize_routing_list_idem is_change_kind kinds out h), refl)
]

-- What each part of the rules was normalised to.
pub record Parts (rules r : RoutingRules) : Type 0 where
  pub severity : normalize_severity rules.min_severity ≡ some r.min_severity
  pub included :
      normalize_routing_list is_collector_name rules.include_collectors ≡ some r.include_collectors
  pub excluded :
      normalize_routing_list is_collector_name rules.exclude_collectors ≡ some r.exclude_collectors
  pub all_kinds : List Text
  pub kinds : normalize_routing_list is_change_kind rules.change_kinds ≡ some all_kinds
  pub dropped : all_kinds_dropped all_kinds ≡ r.change_kinds

pub normalize_routing_rules-Parts :
    (rules r : RoutingRules) → normalize_routing_rules rules ≡ some r → Parts rules r
unfolding normalize_routing_rules
normalize_routing_rules-Parts rules r h =
    let (s, severity, h₁) = bind_some (normalize_severity rules.min_severity) _ h in
    let (i, included, h₂) =
      bind_some (normalize_routing_list is_collector_name rules.include_collectors) _ h₁ in
    let (x, excluded, h₃) =
      bind_some (normalize_routing_list is_collector_name rules.exclude_collectors) _ h₂ in
    let (k, kinds, h₄) =
      bind_some (normalize_routing_list is_change_kind rules.change_kinds) _ h₃ in
    let out : RoutingRules = record {
      min_severity = s;
      include_collectors = i;
      exclude_collectors = x;
      change_kinds = all_kinds_dropped k;
    } in
    let is : out ≡ r = cc h₄ in
    record {
      severity = severity ∙ ap (λ (q : RoutingRules). some q.min_severity) is;
      included = included ∙ ap (λ (q : RoutingRules). some q.include_collectors) is;
      excluded = excluded ∙ ap (λ (q : RoutingRules). some q.exclude_collectors) is;
      all_kinds = k;
      kinds = kinds;
      dropped = ap (λ (q : RoutingRules). q.change_kinds) is;
    }

-- Normalised rules are normalised to themselves.
pub normalize_routing_rules_idem :
    (rules canonical : RoutingRules)
    → normalize_routing_rules rules ≡ some canonical
    → normalize_routing_rules canonical ≡ some canonical
unfolding normalize_routing_rules
normalize_routing_rules_idem rules canonical h =
    let p = normalize_routing_rules-Parts rules canonical h in
    let (ks, again, same) = kinds_idem rules.change_kinds p.all_kinds p.kinds in
    let kinds : normalize_routing_list is_change_kind canonical.change_kinds ≡ some ks =
      ap (normalize_routing_list is_change_kind) (sym p.dropped) ∙ again in
    rw (normalize_severity_idem rules.min_severity canonical.min_severity p.severity) (
      rw
        (normalize_routing_list_idem is_collector_name rules.include_collectors
          canonical.include_collectors p.included)
        (rw
          (normalize_routing_list_idem is_collector_name rules.exclude_collectors
            canonical.exclude_collectors p.excluded)
          (rw kinds (rw (same ∙ p.dropped) refl))))
