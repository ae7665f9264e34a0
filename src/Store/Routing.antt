-- ===== src/Store/Routing.antt =====
-- internal/store/routing.go: which changes a destination receives.
pub mod Canonical
pub mod Commas
pub mod Keys
pub mod Columns
pub mod Everything
pub mod Digest
pub mod Shared
use tail_state.Prelude.{
  Bool, List, Option, [], contains, every_of, false, if◌then◌else◌, is_empty, leb, length, nat_beq,
  nat_eq, none, not, some, sorted_set, string_eq, true, ℕ, ◌&&◌, ◌++◌, ◌>>=◌, ◌||◌, ◌∷◌,
}
use tail_state.Text.{Text, eq_text, str, text_eq, text_ordered, to_lower, trim_space}
use tail_state.Model.{Change}
use tail_state.Model.Severity.{Severity, at_least, parse_severity, rank, severity_low}

pub record RoutingRules : Type 0 where
  pub min_severity : Severity
  pub include_collectors : List Text
  pub exclude_collectors : List Text
  pub change_kinds : List Text

abbrev pub is_lower : ℕ → Bool
is_lower c = leb b'a' c && leb c b'z'

-- `^[a-z][a-z_]{0,31}$`
unfoldable pub is_collector_name : Text → Bool
unfolding every_of
is_collector_name [] = false
is_collector_name (c ∷ s) =
    is_lower c && every_of (λ b. is_lower b || nat_beq b b'_') s && leb (length s) 31

abbrev pub routing_change_kinds : List Text
routing_change_kinds = str "created" ∷ str "changed" ∷ str "removed" ∷ []

unfoldable pub is_change_kind : Text → Bool
unfolding contains
is_change_kind s = contains routing_change_kinds s

-- The values that the loop of `normalizeRoutingList` puts into `seen`; an invalid one is an error.
unfoldable pub normal_values : (Text → Bool) → List Text → Option (List Text)
unfolding to_lower trim_space
normal_values valid [] = some []
normal_values valid (value ∷ values) =
    let v = to_lower (trim_space value) in
    let rest = normal_values valid values in
    if is_empty v then rest else if valid v then (rest >>= λ vs. some (v ∷ vs)) else none

-- `normalizeRoutingList`.
unfoldable pub normalize_routing_list : (Text → Bool) → List Text → Option (List Text)
normalize_routing_list valid values =
    normal_values valid values >>= λ seen. some (sorted_set text_ordered seen)

-- The part of `NormalizeRoutingRules` on the severity.
unfoldable pub normalize_severity : Severity → Option Severity
unfolding eq_text trim_space parse_severity
normalize_severity s = if is_empty (trim_space s) then some [] else elim (parse_severity s) [
  | none ↦ none
  | some severity ↦ if eq_text severity severity_low then some [] else some severity
]

-- Three kinds are all kinds.
abbrev pub all_kinds_dropped : List Text → List Text
all_kinds_dropped kinds = if nat_beq (length kinds) 3 then [] else kinds

-- `NormalizeRoutingRules`; `none` is an error.
unfoldable pub normalize_routing_rules : RoutingRules → Option RoutingRules
normalize_routing_rules rules = do
  severity ← normalize_severity rules.min_severity
  included ← normalize_routing_list is_collector_name rules.include_collectors
  excluded ← normalize_routing_list is_collector_name rules.exclude_collectors
  kinds ← normalize_routing_list is_change_kind rules.change_kinds
  some (record {
    min_severity = severity;
    include_collectors = included;
    exclude_collectors = excluded;
    change_kinds = all_kinds_dropped kinds;
  })

-- `AllChanges`.
unfoldable pub all_changes : RoutingRules → Bool
unfolding eq_text
all_changes r =
    (is_empty r.min_severity || eq_text r.min_severity severity_low)
    && is_empty r.include_collectors
    && is_empty r.exclude_collectors
    && is_empty r.change_kinds

-- `Matches`.
unfoldable pub matches : RoutingRules → Change → Severity → Bool
unfolding contains rank
matches r change severity =
    if not (is_empty r.min_severity) && not (at_least severity r.min_severity)
    then false
    else if not (is_empty r.include_collectors)
        && not (contains r.include_collectors change.collector)
    then false
    else if contains r.exclude_collectors change.collector
    then false
    else if not (is_empty r.change_kinds) && not (contains r.change_kinds change.kind)
    then false
    else true

-- `strings.Join(values, ",")`
unfoldable pub join_comma : List Text → Text
join_comma [] = []
join_comma (v ∷ []) = v
join_comma (v ∷ w ∷ values) = v ++ b',' ∷ join_comma (w ∷ values)

-- `key`.
unfoldable pub rules_key : RoutingRules → Text
rules_key r =
    let kinds = b'|' ∷ join_comma r.change_kinds in
    let excluded = b'|' ∷ (join_comma r.exclude_collectors ++ kinds) in
    r.min_severity ++ b'|' ∷ (join_comma r.include_collectors ++ excluded)
