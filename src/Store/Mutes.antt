-- ===== src/Store/Mutes.antt =====
-- internal/store/mutes.go: which recorded changes are left out of digests, and the table of the rules.
pub mod Evaluate
pub mod Kept
pub mod Tags
pub mod Bounds
use tail_state.Prelude.{
  Bool, List, Option, [], if◌then◌else◌, is_empty, keep_if, leb, length, ltb, nat_beq, nat_eq, none,
  not, some, string_eq, suc, ℕ, ◌&&◌, ◌++◌, ◌>>=◌, ◌||◌, ◌∷◌,
}
use tail_state.Text.{
  Text, contains_any, eq_text, has_prefix, is_control, str, text_eq, text_ordered, to_lower,
  trim_space,
}
use tail_state.Store.Routing.{is_collector_name}
use tail_state.Store.Table.{count_where}

pub record MuteRule : Type 0 where
  pub id : ℕ
  pub kind : Text
  pub value : Text
  pub created_at : ℕ

abbrev pub mute_collector : Text
mute_collector = str "collector"

abbrev pub mute_field : Text
mute_field = str "field"

abbrev pub mute_tag : Text
mute_tag = str "tag"

abbrev pub mute_resource : Text
mute_resource = str "resource"

abbrev pub max_mute_rules : ℕ
max_mute_rules = 200

-- `strings.Cut(s, ".")`: the text before the first dot and, if there is one, the text after it.
unfoldable pub cut_dot : Text → Text × Option Text
cut_dot [] = ([], none)
cut_dot (c ∷ s) =
    let rest = cut_dot s in if nat_beq c b'.' then ([], some s) else (c ∷ rest.0, rest.1)

-- `strings.Trim(s, ".")`
unfoldable pub drop_dots : Text → Text
drop_dots [] = []
drop_dots (c ∷ s) = let rest = drop_dots s in if nat_beq c b'.' then rest else c ∷ s

unfoldable pub drop_last_dots : Text → Text
drop_last_dots [] = []
drop_last_dots (c ∷ s) =
    let rest = drop_last_dots s in if nat_beq c b'.' && is_empty rest then [] else c ∷ rest

abbrev pub is_blank : ℕ → Bool
is_blank c = nat_beq c b' ' || nat_beq c 9

-- The part of `NormalizeMuteRule` on each kind; `none` is an error.
unfoldable pub normalize_field_rule : Text → Option Text
unfolding cut_dot to_lower drop_dots drop_last_dots is_collector_name contains_any
normalize_field_rule value =
    let parts = cut_dot value in
    let collector = to_lower parts.0 in
    elim parts.1 [
      | none ↦ none
      | some after ↦
          let path = drop_dots (drop_last_dots after) in
          if not (is_collector_name collector) || is_empty path || contains_any path is_blank
          then none
          else some (collector ++ b'.' ∷ path)
    ]

unfoldable pub normalize_mute_value : Text → Text → Option Text
unfolding eq_text to_lower is_collector_name normalize_field_rule has_prefix contains_any
normalize_mute_value kind value =
    if eq_text kind mute_collector
    then (if is_collector_name (to_lower value) then some (to_lower value) else none)
    else if eq_text kind mute_field
    then normalize_field_rule value
    else if eq_text kind mute_tag
    then (if not (has_prefix (to_lower value) (str "tag:"))
          || leb (length value) 4
          || contains_any value (λ c. is_blank c || nat_beq c b',')
        then none
        else some (to_lower value))
    else if eq_text kind mute_resource
    then some value
    else none

-- `NormalizeMuteRule`.
unfoldable pub normalize_mute_rule : Text → Text → Option (Text × Text)
unfolding to_lower trim_space contains_any
normalize_mute_rule kind value =
    let kind' = to_lower (trim_space kind) in
    let value' = trim_space value in
    if is_empty value' || ltb 256 (length value') || contains_any value' is_control
    then none
    else (normalize_mute_value kind' value' >>= λ v. some (kind', v))

-- The table `mute_rules` with its AUTOINCREMENT counter.
pub record Mutes : Type 0 where
  pub rules : List MuteRule
  pub next_id : ℕ

pub data AddResult : Type 0 where
  invalid_rule : AddResult
  rule_exists : AddResult
  too_many_rules : AddResult
  added_rule : ℕ → AddResult

abbrev pub is_rule : Text → Text → MuteRule → Bool
is_rule kind value r = eq_text r.kind kind && eq_text r.value value

-- `AddMuteRule`.
unfoldable pub add_mute_rule : ℕ → Text → Text → Mutes → AddResult × Mutes
unfolding normalize_mute_rule
add_mute_rule now kind value m = elim (normalize_mute_rule kind value) [
  | none ↦ (invalid_rule, m)
  | some (k, v) ↦
      let row : MuteRule = record { id = m.next_id; kind = k; value = v; created_at = now } in
      if ltb 0 (count_where (is_rule k v) m.rules)
      then (rule_exists, m)
      else if leb max_mute_rules (length m.rules)
      then (too_many_rules, m)
      else (added_rule m.next_id, record { rules = m.rules ++ row ∷ []; next_id = suc m.next_id })
]

-- `DeleteMuteRule`: whether there was such a rule.
unfoldable pub delete_mute_rule : ℕ → Mutes → Bool × Mutes
unfolding keep_if
delete_mute_rule id m = (
  ltb 0 (count_where (λ r. nat_beq r.id id) m.rules),
  record m { rules = keep_if (λ r. not (nat_beq r.id id)) m.rules },
)
