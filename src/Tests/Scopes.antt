-- ===== src/Tests/Scopes.antt =====
-- Runs of `unionScopes` and `succeeds` of internal/monitor, and the theorem at concrete scopes.
use tail_state.Prelude.{
  List, [], contains, every_of, false, lookup, nat_eq, refl, some_of, stable_insert, string_eq,
  true, unique, ◌∷◌, ◌≡◌,
}
use tail_state.Text.{Text, eq_text, lt_text, str, text_eq, text_ordered, trim_space}
use tail_state.Monitor.Scopes.{all_collectors, succeeds, union_scopes}
use tail_state.Monitor.Scopes.Union.{asks_for, union_scopes-covers}

abbrev users_scope : List Text
users_scope = str "users" ∷ str " devices" ∷ []

abbrev policy_scope : List Text
policy_scope = str "policy" ∷ str "users" ∷ []

union_run :
    union_scopes (users_scope ∷ policy_scope ∷ []) ≡ str "devices" ∷ str "policy" ∷ str "users" ∷ []
unfolding union_scopes contains eq_text unique stable_insert lt_text
union_run = refl

-- A scope with a name that is not known is every collector.
union_unknown : union_scopes (users_scope ∷ (str "newer" ∷ []) ∷ []) ≡ all_collectors
unfolding union_scopes contains eq_text unique stable_insert lt_text
union_unknown = refl

succeeds_run : succeeds ((str "users", true) ∷ (str "devices", false) ∷ []) users_scope ≡ false
unfolding succeeds contains eq_text unique stable_insert lt_text lookup
succeeds_run = refl

asks_for_policy : asks_for policy_scope (str "policy") ≡ true
unfolding contains eq_text some_of every_of trim_space
asks_for_policy = refl

union_scopes-covers_example :
    contains (union_scopes (users_scope ∷ policy_scope ∷ [])) (str "policy") ≡ true
union_scopes-covers_example =
    union_scopes-covers (users_scope ∷ []) [] policy_scope (str "policy") asks_for_policy
