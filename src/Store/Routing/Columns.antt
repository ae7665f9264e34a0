-- ===== src/Store/Routing/Columns.antt =====
-- internal/store/routing.go: the columns in which the rules of a destination are stored.
use tail_state.Prelude.{
  Every, List, Option, [], ap, arith, contains, false, if◌then◌else◌, is_empty, nat_beq, nat_eq,
  none, or_false, refl, some, sort, sorted_set, string_eq, true, unique, ◌++◌, ◌∙◌, ◌∷◌, ◌≡◌,
}
use tail_state.Text.{Text, is_space, text_eq, text_ordered, trim_left, trim_right, trim_space}
use tail_state.Store.Routing.{
  RoutingRules, join_comma, normal_values, normalize_routing_list, normalize_routing_rules,
  normalize_severity,
}
use tail_state.Store.Routing.Commas.{IsName, Without, is_word}
use tail_state.Store.Routing.Keys.{IsCanonical, normalize_routing_rules-HasNames}
use tail_state.Store.Routing.Canonical.{normalize_routing_rules_idem}

-- `strings.Split(value, ",")`: the first part and the others.
unfoldable pub split_parts : Text → Text × List Text
split_parts [] = ([], [])
split_parts (c ∷ s) =
    let rest = split_parts s in
    if nat_beq c b',' then ([], rest.0 ∷ rest.1) else (c ∷ rest.0, rest.1)

unfoldable pub split_comma : Text → List Text
unfolding split_parts
split_comma s = (split_parts s).0 ∷ (split_parts s).1

-- `splitRoutingList`.
unfoldable pub split_routing_list : Text → List Text
unfolding trim_space
split_routing_list value = if is_empty (trim_space value) then [] else split_comma value

-- The zero value routes every change.
abbrev pub route_all : RoutingRules
route_all = record {
  min_severity = [];
  include_collectors = [];
  exclude_collectors = [];
  change_kinds = [];
}

abbrev pub or_route_all : Option RoutingRules → RoutingRules
or_route_all none = route_all
or_route_all (some rules) = rules

abbrev pub columns_read : Text → Text → Text → Text → RoutingRules
columns_read min_severity included excluded kinds = record {
  min_severity = min_severity;
  include_collectors = split_routing_list included;
  exclude_collectors = split_routing_list excluded;
  change_kinds = split_routing_list kinds;
}

-- `routingFromColumns`; columns that cannot be interpreted route every change.
unfoldable pub routing_from_columns : Text → Text → Text → Text → RoutingRules
routing_from_columns min_severity included excluded kinds =
    or_route_all (normalize_routing_rules (columns_read min_severity included excluded kinds))

split_parts-append :
    (a rest : Text) → Without b',' a → split_parts (a ++ b',' ∷ rest) ≡ (a, split_comma rest)
unfolding split_comma split_parts contains
split_parts-append [] rest h = refl
split_parts-append (c ∷ a) rest h =
    let (other, others) = or_false (nat_beq c b',') (contains a b',') h in
    rw (other, split_parts-append a rest others) refl

split_parts-whole : (a : Text) → Without b',' a → split_parts a ≡ (a, [])
unfolding split_parts contains
split_parts-whole [] h = refl
split_parts-whole (c ∷ a) h =
    let (other, others) = or_false (nat_beq c b',') (contains a b',') h in
    rw (other, split_parts-whole a others) refl

split_comma-join_comma :
    (x : Text) (xs : List Text) → Every IsName (x ∷ xs) → split_comma (join_comma (x ∷ xs)) ≡ x ∷ xs
unfolding split_comma join_comma
split_comma-join_comma x [] h = rw (split_parts-whole x h.0.1) refl
split_comma-join_comma x (y ∷ xs) h =
    rw (split_parts-append x (join_comma (y ∷ xs)) h.0.1)
      (ap (λ parts. x ∷ parts) (split_comma-join_comma y xs h.1))

trim_space-word : (s : Text) → is_word s ≡ true → is_empty (trim_space s) ≡ false
unfolding trim_space trim_left trim_right
trim_space-word [] h = absurd (cc h)
trim_space-word (c ∷ s) h =
    let solid : is_space c ≡ false = ground (arith, h) in rw solid (rw solid refl)

is_word-join_comma :
    (x : Text) (xs : List Text) → is_word x ≡ true → is_word (join_comma (x ∷ xs)) ≡ true
unfolding join_comma
is_word-join_comma [] xs h = absurd (cc h)
is_word-join_comma (c ∷ x) [] h = h
is_word-join_comma (c ∷ x) (y ∷ xs) h = h

split_routing_list-join_comma :
    (xs : List Text) → Every IsName xs → split_routing_list (join_comma xs) ≡ xs
unfolding split_routing_list
split_routing_list-join_comma [] h = unfold join_comma trim_space trim_left trim_right in refl
split_routing_list-join_comma (x ∷ xs) h =
    rw (trim_space-word (join_comma (x ∷ xs)) (is_word-join_comma x xs h.0.0))
      (split_comma-join_comma x xs h)

or_route_all-IsCanonical :
    (rules : RoutingRules) (result : Option RoutingRules)
    → normalize_routing_rules rules ≡ result
    → IsCanonical (or_route_all result)
or_route_all-IsCanonical rules none h = (
  route_all,
  (unfold normalize_routing_rules normalize_severity normalize_routing_list normal_values sorted_set
        unique sort trim_space trim_left trim_right in
      refl),
)
or_route_all-IsCanonical rules (some r) h = (rules, h)

columns_read-join_comma :
    (r : RoutingRules)
    → IsCanonical r
    → columns_read r.min_severity
        (join_comma r.include_collectors)
        (join_comma r.exclude_collectors)
        (join_comma r.change_kinds)
      ≡ r
columns_read-join_comma r (rules, h) =
    let names = normalize_routing_rules-HasNames rules r h in
    let i = split_routing_list-join_comma r.include_collectors names.included in
    let x = split_routing_list-join_comma r.exclude_collectors names.excluded in
    let k = split_routing_list-join_comma r.change_kinds names.kinds in cc (i, x, k)

-- Canonical rules are read back from their columns as they were written, and whatever the columns
-- hold, the rules that are read from them are canonical.
pub routing_from_columns-IsCanonical :
    (r : RoutingRules) (min_severity included excluded kinds : Text)
    → IsCanonical r
    → (routing_from_columns r.min_severity
          (join_comma r.include_collectors)
          (join_comma r.exclude_collectors)
          (join_comma r.change_kinds)
        ≡ r)
      × IsCanonical (routing_from_columns min_severity included excluded kinds)
unfolding routing_from_columns
routing_from_columns-IsCanonical r min_severity included excluded kinds canonical = (
  ap or_route_all (
      ap normalize_routing_rules (columns_read-join_comma r canonical)
      ∙ normalize_routing_rules_idem canonical.0 r canonical.1),
  or_route_all-IsCanonical (columns_read min_severity included excluded kinds) _ refl,
)
