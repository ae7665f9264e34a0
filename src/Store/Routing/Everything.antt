-- ===== src/Store/Routing/Everything.antt =====
-- Which canonical rules route every change.
use tail_state.Prelude.{
  ==_refl, Bool, Bool-cases, Every, List, [], ap, arith, contains, false, if◌then◌else◌, inl, inr,
  is_empty, nat_eq, none, not, refl, some, string_eq, true, ◌&&◌, ◌||◌, ◌↔◌, ◌∙◌, ◌∷◌, ◌≡◌, ◌≤◌,
}
use tail_state.Text.{Text, eq_text, text_eq, text_ordered}
use tail_state.Model.{Change}
use tail_state.Model.Severity.{
  Severity, at_least, rank, severity_high, severity_low, severity_medium,
}
use tail_state.Store.Routing.{RoutingRules, all_changes, matches, normalize_severity}
use tail_state.Store.Routing.Commas.{IsName}
use tail_state.Store.Routing.Keys.{IsCanonical, normalize_routing_rules-HasNames}
use tail_state.Store.Routing.Canonical.{normalize_routing_rules-Parts, normalize_severity-cases}

-- Four early returns, none of which is taken.
guards_pass :
    (a b c d : Bool)
    → ((if a then false else if b then false else if c then false else if d then false else true)
        ≡ true)
      ↔ ((a ≡ false) × (b ≡ false) × (c ≡ false) × (d ≡ false))
guards_pass true b c d = ground arith
guards_pass false true c d = ground arith
guards_pass false false true d = ground arith
guards_pass false false false d = ground arith

matches-guards :
    (r : RoutingRules) (change : Change) (severity : Severity)
    → (matches r change severity ≡ true) ↔ (
        ((not (is_empty r.min_severity) && not (at_least severity r.min_severity)) ≡ false)
        × ((not (is_empty r.include_collectors)
              && not (contains r.include_collectors change.collector))
            ≡ false)
        × (contains r.exclude_collectors change.collector ≡ false)
        × ((not (is_empty r.change_kinds) && not (contains r.change_kinds change.kind)) ≡ false))
unfolding matches
matches-guards r change severity = guards_pass _ _ _ _

contains-no_name : (xs : List Text) → Every IsName xs → contains xs [] ≡ false
unfolding contains eq_text
contains-no_name [] h = refl
contains-no_name ([] ∷ xs) h = absurd (cc h.0.0)
contains-no_name ((c ∷ x) ∷ xs) h = contains-no_name xs h.1

rank_pos : (s : Severity) → 1 ≤ rank s
unfolding rank
rank_pos s = elim (Bool-cases (eq_text s severity_high)) [
  | inl high ↦ rw high (omega arith)
  | inr other ↦ elim (Bool-cases (eq_text s severity_medium)) [
    | inl medium ↦ rw (other, medium) (omega arith)
    | inr low ↦ rw (other, low) (omega arith)
  ]
]

rank_of_low : rank severity_low ≡ 1
unfolding rank eq_text
rank_of_low = refl

min_severity-all :
    (s t : Severity)
    → normalize_severity s ≡ some t
    → ((not (is_empty t) && not (at_least severity_low t)) ≡ false)
    → (is_empty t || eq_text t severity_low) ≡ true
unfolding rank eq_text
min_severity-all s t h k = elim (normalize_severity-cases s t h) [
  | inl blank ↦ rw blank refl
  | inr (inl medium) ↦ absurd (cc (rw medium at k))
  | inr (inr high) ↦ absurd (cc (rw high at k))
]

low_passes :
    (t severity : Severity)
    → (is_empty t || eq_text t severity_low) ≡ true
    → (not (is_empty t) && not (at_least severity t)) ≡ false
low_passes t severity h = elim (Bool-cases (is_empty t)) [
  | inl blank ↦ rw blank refl
  | inr filled ↦
      let low : t ≡ severity_low = (text_eq.same_iff t severity_low).0 (rw filled at h) in
      let one : rank t ≡ 1 = ap rank low ∙ rank_of_low in
      rw filled (ground (arith, one, rank_pos severity))
]

list_passes :
    (xs : List Text) (a : Text)
    → is_empty xs ≡ true
    → ((not (is_empty xs) && not (contains xs a)) ≡ false) × (contains xs a ≡ false)
unfolding contains
list_passes [] a h = (refl, refl)
list_passes (x ∷ xs) a h = absurd (cc h)

list_refuses :
    (xs : List Text)
    → Every IsName xs
    → ((not (is_empty xs) && not (contains xs [])) ≡ false)
    → is_empty xs ≡ true
list_refuses [] names h = refl
list_refuses (x ∷ xs) names h = absurd (cc (rw (contains-no_name (x ∷ xs) names) at h))

-- A change of a collector that has no name and of no kind.
abbrev nameless : Text → Change
nameless collector = record {
  kind = [];
  collector = collector;
  resource_id = [];
  resource_type = [];
  name = [];
  fields = [];
  fields_truncated = false;
  total_fields = 0;
  created = none;
}

excludes_none :
    (xs : List Text) → ((collector : Text) → contains xs collector ≡ false) → is_empty xs ≡ true
unfolding contains
excludes_none [] h = refl
excludes_none (x ∷ xs) h = absurd (ground (arith, h x, ==_refl x))

-- For canonical rules, `all_changes` holds exactly when every change of every severity is routed.
pub all_changes_iff :
    (r : RoutingRules)
    → IsCanonical r
    → (all_changes r ≡ true)
      ↔ ((change : Change) (severity : Severity) → matches r change severity ≡ true)
unfolding all_changes
all_changes_iff r (rules, h) =
    let names = normalize_routing_rules-HasNames rules r h in
    (
      (λ all change severity. (matches-guards r change severity).1 (
        low_passes r.min_severity severity (ground (arith, all)),
        (list_passes r.include_collectors change.collector (ground (arith, all))).0,
        (list_passes r.exclude_collectors change.collector (ground (arith, all))).1,
        (list_passes r.change_kinds change.kind (ground (arith, all))).0,
      )),
      (λ routed.
          let (low, included, excluded, kinds) =
            (matches-guards r (nameless []) severity_low).0 (routed (nameless []) severity_low) in
          let m =
            min_severity-all rules.min_severity r.min_severity
              (normalize_routing_rules-Parts rules r h).severity low in
          let i = list_refuses r.include_collectors names.included included in
          let k = list_refuses r.change_kinds names.kinds kinds in
          let x = excludes_none r.exclude_collectors (λ c.
            ((matches-guards r (nameless c) severity_low).0
              (routed (nameless c) severity_low)).2) in
          ground (arith, m, i, k, x)),
    )
