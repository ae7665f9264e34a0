-- ===== src/Monitor/Scopes.antt =====
-- `unionScopes` of internal/monitor/triggers.go and `normalizeCollectors` of
-- internal/monitor/scheduler.go: the collectors that one poll for several triggers covers.
pub mod Union
use tail_state.Prelude.{
  Bool, Dict, List, Option, [], contains, every_of, false, if◌then◌else◌, is_empty, keep_if, lookup,
  ltb, map, nat_beq, nat_eq, none, not, some, stable_sort, string_eq, unique, ℕ, ◌++◌, ◌+◌, ◌==◌,
  ◌>>=◌, ◌∷◌,
}
use tail_state.Text.{Text, eq_text, lt_text, str, text_eq, text_ordered, trim_space}

abbrev pub core_collectors : List Text
core_collectors = str "devices" ∷ []

abbrev pub inventory_collectors : List Text
inventory_collectors =
    str "device_details"
    ∷ str "users"
    ∷ str "user_invites"
    ∷ str "dns"
    ∷ str "policy"
    ∷ str "keys"
    ∷ str "webhooks"
    ∷ str "log_streaming"
    ∷ str "contacts"
    ∷ str "posture"
    ∷ str "settings"
    ∷ str "services"
    ∷ str "oauth_apps"
    ∷ []

-- `allCollectors`.
abbrev pub all_collectors : List Text
all_collectors = core_collectors ++ inventory_collectors

-- `collectorPriority`, from an index on.
unfoldable pub priority_from : ℕ → List Text → Text → ℕ
unfolding eq_text
priority_from index [] collector = index
priority_from index (core ∷ cores) collector =
    let rest = priority_from (index + 1) cores collector in
    if collector == core then index else rest

unfoldable pub polled_before : Text → Text → Bool
unfolding priority_from lt_text
polled_before a b =
    let left = priority_from 0 core_collectors a in
    let right = priority_from 0 core_collectors b in
    if nat_beq left right then lt_text a b else ltb left right

abbrev pub names_in : List Text → List Text
names_in collectors = keep_if (λ c. not (is_empty c)) (map trim_space collectors)

-- `normalizeCollectors`: none, which is every collector, where one is not known.
unfoldable pub normalize_collectors : List Text → List Text
unfolding trim_space keep_if contains every_of stable_sort unique eq_text polled_before
normalize_collectors collectors =
    let names = names_in collectors in
    if every_of (contains all_collectors) names
    then stable_sort polled_before (unique [] names)
    else []

-- The loop of `unionScopes`, which ends at a scope of every collector.
unfoldable pub gather_scopes : List (List Text) → Option (List Text)
unfolding normalize_collectors
gather_scopes [] = some []
gather_scopes (scope ∷ scopes) =
    let normal = normalize_collectors scope in
    let rest = gather_scopes scopes in
    if is_empty normal then none else rest >>= (λ union. some (normal ++ union))

-- `unionScopes`.
unfoldable pub union_scopes : List (List Text) → List Text
unfolding gather_scopes
union_scopes scopes = elim (gather_scopes scopes) [
  | none ↦ all_collectors
  | some union ↦ normalize_collectors union
]

-- `succeeds`: an outcome has, for each collector that was polled, whether it was reconciled.
unfoldable pub succeeds : Dict Text Bool → List Text → Bool
unfolding normalize_collectors every_of lookup eq_text
succeeds outcome collectors =
    let normal = normalize_collectors collectors in
    let reconciled : Text → Bool = λ c. elim (lookup outcome c) [ none ↦ false | some ok ↦ ok ] in
    if is_empty normal then every_of (λ entry. entry.1) outcome else every_of reconciled normal
