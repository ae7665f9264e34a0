-- ===== src/Store/Routing/Keys.antt =====
-- The key of a canonical rule set determines it.
use mathlib.Core.Path.{subst}
use tail_state.Prelude.{
  Bool, Bool-cases, Every, Every-mono, List, [], arith, contains, every_of, false, inl, inr, length,
  nat_beq, nat_eq, refl, some, string_eq, true, ℕ, ◌++◌, ◌==◌, ◌||◌, ◌∷◌, ◌≡◌,
}
use tail_state.Text.{Text, text_eq, text_ordered}
use tail_state.Store.Routing.{
  RoutingRules, all_kinds_dropped, is_change_kind, is_collector_name, is_lower, join_comma,
  normalize_routing_list, normalize_routing_rules, normalize_severity, routing_change_kinds,
  rules_key,
}
use tail_state.Store.Routing.Canonical.{
  IsNormal, normalize_routing_list-IsNormal, normalize_routing_rules-Parts,
  normalize_severity-cases,
}
use tail_state.Store.Routing.Commas.{
  IsName, Without, cut_unique, join_comma-Without, join_comma_unique,
}
use tail_state.Model.Severity.{Severity}

-- What the key of a rule set is cut by occurs in none of its parts.
pub record HasNames (r : RoutingRules) : Type 0 where
  pub severity : Without b'|' r.min_severity
  pub included : Every IsName r.include_collectors
  pub excluded : Every IsName r.exclude_collectors
  pub kinds : Every IsName r.change_kinds

rules_key-HasNames :
    (r s : RoutingRules) → HasNames r → HasNames s → rules_key r ≡ rules_key s → r ≡ s
unfolding rules_key
rules_key-HasNames r s hr hs h =
    let (severity, h₁) =
      cut_unique b'|' r.min_severity s.min_severity
        (join_comma r.include_collectors
          ++ b'|' ∷ (join_comma r.exclude_collectors ++ b'|' ∷ join_comma r.change_kinds))
        (join_comma s.include_collectors
          ++ b'|' ∷ (join_comma s.exclude_collectors ++ b'|' ∷ join_comma s.change_kinds))
        hr.severity hs.severity h in
    let (included, h₂) =
      cut_unique b'|' (join_comma r.include_collectors) (join_comma s.include_collectors)
        (join_comma r.exclude_collectors ++ b'|' ∷ join_comma r.change_kinds)
        (join_comma s.exclude_collectors ++ b'|' ∷ join_comma s.change_kinds)
        (join_comma-Without r.include_collectors hr.included)
        (join_comma-Without s.include_collectors hs.included) h₁ in
    let (excluded, kinds) =
      cut_unique b'|' (join_comma r.exclude_collectors) (join_comma s.exclude_collectors)
        (join_comma r.change_kinds) (join_comma s.change_kinds)
        (join_comma-Without r.exclude_collectors hr.excluded)
        (join_comma-Without s.exclude_collectors hs.excluded) h₂ in
    let i =
      join_comma_unique r.include_collectors s.include_collectors hr.included hs.included
        included in
    let x =
      join_comma_unique r.exclude_collectors s.exclude_collectors hr.excluded hs.excluded
        excluded in
    let k = join_comma_unique r.change_kinds s.change_kinds hr.kinds hs.kinds kinds in
    cc (severity, i, x, k)

-- A collector name and a change kind are names.
lower_or_bar-sep :
    (b : ℕ)
    → (is_lower b || nat_beq b b'_') ≡ true
    → (nat_beq b b',' ≡ false) × (nat_beq b b'|' ≡ false)
lower_or_bar-sep b h = ground (arith, h)

every_lower-Without :
    (s : Text)
    → every_of (λ b. is_lower b || nat_beq b b'_') s ≡ true
    → Without b',' s × Without b'|' s
unfolding every_of contains
every_lower-Without [] h = (refl, refl)
every_lower-Without (c ∷ s) h =
    let (comma, bar) = lower_or_bar-sep c (ground (arith, h)) in
    let (commas, bars) = every_lower-Without s (ground (arith, h)) in
    (ground (arith, comma, commas), ground (arith, bar, bars))

is_collector_name-IsName : (s : Text) → is_collector_name s ≡ true → IsName s
unfolding is_collector_name contains
is_collector_name-IsName [] h = absurd (cc h)
is_collector_name-IsName (c ∷ s) h =
    let tail : every_of (λ b. is_lower b || nat_beq b b'_') s ≡ true = ground (arith, h) in
    let (commas, bars) = every_lower-Without s tail in
    (ground (arith, h), ground (arith, h, commas), ground (arith, h, bars))

kind_names : Every IsName routing_change_kinds
unfolding contains
kind_names = ((refl, refl, refl), ((refl, refl, refl), ((refl, refl, refl), tt)))

Every-contains : (xs : List Text) (s : Text) → Every IsName xs → contains xs s ≡ true → IsName s
unfolding contains
Every-contains [] s h k = absurd (cc k)
Every-contains (x ∷ xs) s h k = elim (Bool-cases (x == s)) [
  | inl same ↦ subst IsName ((text_eq.same_iff x s).0 same) h.0
  | inr other ↦ Every-contains xs s h.1 (rw other at k)
]

is_change_kind-IsName : (s : Text) → is_change_kind s ≡ true → IsName s
unfolding is_change_kind
is_change_kind-IsName s h = Every-contains routing_change_kinds s kind_names h

names_of :
    (valid : Text → Bool) (values out : List Text)
    → ((s : Text) → valid s ≡ true → IsName s)
    → normalize_routing_list valid values ≡ some out
    → Every IsName out
names_of valid values out named h =
    Every-mono (IsNormal valid) IsName out (λ s normal. named s normal.2)
      (normalize_routing_list-IsNormal valid values out h)

dropped-names : (kinds : List Text) → Every IsName kinds → Every IsName (all_kinds_dropped kinds)
dropped-names kinds h = elim (Bool-cases (nat_beq (length kinds) 3)) [
  | inl all ↦ rw all tt
  | inr few ↦ rw few h
]

severity-Without : (s t : Severity) → normalize_severity s ≡ some t → Without b'|' t
unfolding contains
severity-Without s t h = elim (normalize_severity-cases s t h) [
  | inl blank ↦ rw blank refl
  | inr (inl medium) ↦ rw medium refl
  | inr (inr high) ↦ rw high refl
]

pub normalize_routing_rules-HasNames :
    (rules canonical : RoutingRules)
    → normalize_routing_rules rules ≡ some canonical
    → HasNames canonical
normalize_routing_rules-HasNames rules canonical h =
    let p = normalize_routing_rules-Parts rules canonical h in
    let kinds =
      names_of is_change_kind rules.change_kinds p.all_kinds is_change_kind-IsName p.kinds in
    record {
      severity = severity-Without rules.min_severity canonical.min_severity p.severity;
      included =
          names_of is_collector_name rules.include_collectors canonical.include_collectors
            is_collector_name-IsName p.included;
      excluded =
          names_of is_collector_name rules.exclude_collectors canonical.exclude_collectors
            is_collector_name-IsName p.excluded;
      kinds = subst (Every IsName) p.dropped (dropped-names p.all_kinds kinds);
    }

-- Normalised rules.
abbrev pub IsCanonical : RoutingRules → Type 0
IsCanonical r = (rules : RoutingRules) × (normalize_routing_rules rules ≡ some r)

-- Canonical rule sets that share a key are the same.
pub rules_key_unique :
    (r s : RoutingRules) → IsCanonical r → IsCanonical s → rules_key r ≡ rules_key s → r ≡ s
rules_key_unique r s (rules, hr) (rules', hs) h =
    rules_key-HasNames r s (normalize_routing_rules-HasNames rules r hr)
      (normalize_routing_rules-HasNames rules' s hs) h
