-- ===== src/Model/Diff.antt =====
-- The field diff of internal/model/model.go: `DiffDetailedFor`, its comparison of identified
-- arrays, and the paths of their elements.
pub mod Walk
mod Views
pub mod Depth
pub mod Listing
pub mod Bounds
pub mod Agree
pub mod Paths
use tail_state.Prelude.{
  Bool, List, Option, [], contains, false, if◌then◌else◌, is_empty, keep_if, leb, length, ltb,
  nat_beq, nat_eq, none, not, some, some_of, string_eq, true, ℕ, ◌&&◌, ◌++◌, ◌==◌, ◌>>=◌, ◌||◌, ◌∷◌,
}
use tail_state.Text.{Text, contains_any, eq_text, is_control, str, text_eq, text_ordered, to_lower}
use tail_state.Model.{FieldChange, Json, json_null, json_number, json_object, json_string, member}
use tail_state.Model.Encoding.{encode, format_float}
use tail_state.Text.Truncate.{truncate}

-- `key` without its dashes and underscores, in lower case.
unfoldable pub compact_key : Text → Text
unfolding keep_if to_lower
compact_key key =
    to_lower (keep_if (λ c. not (nat_beq c b'-')) (keep_if (λ c. not (nat_beq c b'_')) key))

-- `strings.Split(path, ".")`: the first segment, and the others.
unfoldable pub path_parts : Text → Text × List Text
path_parts [] = ([], [])
path_parts (c ∷ path) =
    let rest = path_parts path in
    if nat_beq c b'.' then ([], rest.0 ∷ rest.1) else (c ∷ rest.0, rest.1)

abbrev pub is_resolver_list : Text → Bool
is_resolver_list segment = segment == str "nameservers" || segment == str "searchpaths"

-- `orderedArray`.
unfoldable pub ordered_array : Text → Text → Bool
unfolding path_parts compact_key eq_text some_of
ordered_array collector path =
    let parts = path_parts (compact_key path) in
    collector == str "dns" && some_of is_resolver_list (parts.0 ∷ parts.1)

pub record DiffResult : Type 0 where
  pub fields : List FieldChange
  pub fields_truncated : Bool
  pub total_fields : ℕ

abbrev pub no_changes : DiffResult
no_changes = record { fields = []; fields_truncated = false; total_fields = 0 }

abbrev pub max_diff_fields : ℕ
max_diff_fields = 24

-- `diffJSON`: a value that is not present is `none`.
unfoldable pub diff_json : Option Json → Text
unfolding encode
diff_json none = str "<missing>"
diff_json (some value) = encode value

-- `compact`.
unfoldable pub compact : Json → Json
unfolding encode truncate
compact value =
    let raw = encode value in if leb (length raw) 240 then value else json_string (truncate raw 240)

-- `compactPreservingNull`: null is the raw text "null".
unfoldable pub compact_preserving_null : Json → Json
unfolding compact
compact_preserving_null json_null = json_null
compact_preserving_null value = compact value

abbrev pub is_present : Option Json → Bool
is_present none = false
is_present (some value) = true

abbrev pub recorded : Option Json → Json
recorded none = json_null
recorded (some value) = compact_preserving_null value

-- `valueChange`.
unfoldable pub value_change : Text → Option Json → Option Json → FieldChange
unfolding compact_preserving_null
value_change path old new = record {
  field = path;
  old = recorded old;
  new = recorded new;
  old_present = is_present old;
  new_present = is_present new;
}

abbrev pub identity_keys : List Text
identity_keys = str "id" ∷ str "nodeId" ∷ str "address" ∷ []

abbrev pub max_identity_bytes : ℕ
max_identity_bytes = 128

abbrev pub is_bracket : ℕ → Bool
is_bracket c = nat_beq c b'[' || nat_beq c b']'

-- The scalar that identifies an element, as text.
abbrev pub scalar_text : Option Json → Option Text
scalar_text (some (json_string s)) = some s
scalar_text (some (json_number n)) = some (format_float n)
scalar_text _ = none

unfoldable pub is_unusable : Text → Bool
unfolding contains_any
is_unusable id =
    is_empty id
    || ltb max_identity_bytes (length id)
    || contains_any id is_bracket
    || contains_any id is_control

-- `elementIdentity`.
unfoldable pub element_identity : Text → Json → Option Text
unfolding member format_float is_unusable
element_identity key (json_object ms) =
    scalar_text (member ms key) >>= (λ id. if is_unusable id then none else some id)
element_identity key _ = none

-- `identifiedBy`, with the identities met so far.
unfoldable pub identified_from : List Text → Text → List Json → Bool
unfolding element_identity contains
identified_from seen key [] = true
identified_from seen key (value ∷ list) = elim (element_identity key value) [
  | none ↦ false
  | some id ↦ not (contains seen id) && identified_from (id ∷ seen) key list
]

abbrev pub identified_by : Text → List Json → Bool
identified_by key list = identified_from [] key list

-- The loop of `arrayIdentity`.
unfoldable pub first_identity : List Text → List Json → List Json → Option Text
unfolding identified_from
first_identity [] olds news = none
first_identity (key ∷ keys) olds news =
    let rest = first_identity keys olds news in
    if identified_by key olds && identified_by key news then some key else rest

-- `arrayIdentity`.
unfoldable pub array_identity : List Json → List Json → Option Text
unfolding first_identity
array_identity olds news = first_identity identity_keys olds news

-- `ElementPath`.
unfoldable pub element_path : Text → Text → Text
element_path path id = path ++ (b'[' ∷ id ++ str "]")

abbrev pub child_path : Text → Text → Text
child_path path key = if is_empty path then key else path ++ (b'.' ∷ key)
