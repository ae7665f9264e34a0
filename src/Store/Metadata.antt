-- ===== src/Store/Metadata.antt =====
-- internal/store/webhooks.go: the two columns of a trigger that hold lists of names as JSON.
use tail_state.Prelude.{
  Bool, List, Option, every_of, if◌then◌else◌, is_empty, keep_if, leb, length, ltb, map, nat_beq,
  nat_eq, none, not, some, sorted_set, string_eq, ℕ, ◌&&◌, ◌*◌, ◌++◌, ◌>>=◌, ◌||◌, ◌∷◌,
}
use tail_state.Text.{Text, contains_any, is_control, str, text_eq, text_ordered, trim_space}
use tail_state.Model.Encoding.{join_list, quote}

abbrev pub max_event_types : ℕ
max_event_types = 100

abbrev pub max_collectors : ℕ
max_collectors = 32

abbrev pub max_metadata_value_size : ℕ
max_metadata_value_size = 128

abbrev pub max_metadata_json_bytes : ℕ
max_metadata_json_bytes = 16 * 1024

-- A column, trimmed: how many bytes it has, and the strings that it is decoded to, which are none
-- where it is not a JSON array of strings.
pub record Metadata : Type 0 where
  pub bytes : ℕ
  pub values : Option (List Text)

-- `json.Marshal` of a list of strings.
unfoldable pub names_json : List Text → Text
unfolding join_list quote
names_json values = b'[' ∷ join_list (map quote values) ++ str "]"

-- The column as it is written.
abbrev pub metadata_of : List Text → Metadata
metadata_of values = record { bytes = length (names_json values); values = some values }

-- `sortedUnique`: trimmed, without blanks and repetitions, in the order of the bytes.
unfoldable pub sorted_unique : List Text → List Text
unfolding sorted_set keep_if trim_space
sorted_unique values =
    sorted_set text_ordered (keep_if (λ v. not (is_empty v)) (map trim_space values))

abbrev pub valid_value : Text → Bool
valid_value value =
    leb (length value) max_metadata_value_size && not (contains_any value is_control)

-- The tests of `decodeWebhookMetadata` on what the column is decoded to.
unfoldable pub checked_names : ℕ → List Text → Option (List Text)
unfolding every_of contains_any sorted_unique
checked_names limit values =
    if not (every_of valid_value values)
    then none
    else if ltb limit (length (sorted_unique values))
    then none
    else some (sorted_unique values)

-- `decodeWebhookMetadata`.
unfoldable pub decode_metadata : ℕ → Metadata → Option (List Text)
unfolding checked_names
decode_metadata limit column =
    if nat_beq column.bytes 0 || ltb max_metadata_json_bytes column.bytes
    then none
    else column.values >>= checked_names limit
