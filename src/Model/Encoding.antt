-- ===== src/Model/Encoding.antt =====
-- `json.Marshal` and `strconv.FormatFloat` on decoded values, as internal/model/model.go calls them.
-- A number is the text that Marshal gives it, and strings are valid UTF-8, as decoding leaves them.
use tail_state.Prelude.{
  Dict, List, Option, [], contains, drop, false, has, if◌then◌else◌, length, lookup, ltb, map,
  nat_beq, nat_eq, none, not, replicate, some, sorted_set, string_eq, suc, true, zero, ℕ, ◌%◌, ◌&&◌,
  ◌*◌, ◌++◌, ◌+◌, ◌-◌, ◌/◌, ◌||◌, ◌∷◌,
}
use tail_state.Text.{Text, has_prefix, str, text_eq, text_ordered}
use tail_state.Model.{
  Elements, Json, Members, element, json_array, json_bool, json_null, json_number, json_object,
  json_string, named, no_elements, no_members,
}

-- `"\u00"` and two hexadecimal digits.
abbrev pub hex_digit : ℕ → ℕ
hex_digit n = if ltb n 10 then b'0' + n else b'a' + (n - 10)

-- One byte of a string, with the HTML characters escaped.
unfoldable pub escape_byte : ℕ → Text
escape_byte c =
    if nat_beq c b'"' || nat_beq c b'\\'
    then b'\\' ∷ c ∷ []
    else if nat_beq c 8
    then str "\\b"
    else if nat_beq c 12
    then str "\\f"
    else if nat_beq c 10
    then str "\\n"
    else if nat_beq c 13
    then str "\\r"
    else if nat_beq c 9
    then str "\\t"
    else if ltb c 32 || nat_beq c b'<' || nat_beq c b'>' || nat_beq c b'&'
    then str "\\u00" ++ (hex_digit (c / 16) ∷ hex_digit (c % 16) ∷ [])
    else c ∷ []

-- U+2028 and U+2029 are three bytes that become one escape.
abbrev pub line_separator : ℕ → Text → Option Text
line_separator c s =
    if nat_beq c 0xE2 && has_prefix s (0x80 ∷ 0xA8 ∷ [])
    then some (str "\\u2028")
    else if nat_beq c 0xE2 && has_prefix s (0x80 ∷ 0xA9 ∷ [])
    then some (str "\\u2029")
    else none

-- The string without its first `skip` bytes, escaped.
unfoldable pub escape_from : ℕ → Text → Text
unfolding escape_byte
escape_from skip [] = []
escape_from (suc skip) (c ∷ s) = escape_from skip s
escape_from zero (c ∷ s) = elim (line_separator c s) [
  | none ↦ escape_byte c ++ escape_from 0 s
  | some escaped ↦ escaped ++ escape_from 2 s
]

unfoldable pub quote : Text → Text
unfolding escape_from
quote s = b'"' ∷ escape_from 0 s ++ str "\""

unfoldable pub join_list : List Text → Text
join_list [] = []
join_list (x ∷ []) = x
join_list (x ∷ y ∷ xs) = x ++ (b',' ∷ join_list (y ∷ xs))

abbrev pub entry_text : Text × Text → Text
entry_text (key, value) = quote key ++ (b':' ∷ value)

abbrev pub entry_keys {ℓ} : {A : Type ℓ} → Dict Text A → List Text
entry_keys entries = map (λ e. e.0) entries

-- The entry of a key that has one.
abbrev pub entry_at : Dict Text Text → Text → Text
entry_at entries key = elim (lookup entries key) [
  | some value ↦ entry_text (key, value)
  | none ↦ []
]

-- A map is written in the order of its keys.
unfoldable pub write_entries : Dict Text Text → Text
unfolding sorted_set lookup join_list quote
write_entries entries =
    b'{' ∷ join_list (map (entry_at entries) (sorted_set text_ordered (entry_keys entries)))
    ++ str "}"

unfoldable mutual
  unfolding quote join_list write_entries has

  pub encode : Json → Text
  encode json_null = str "null"
  encode (json_bool true) = str "true"
  encode (json_bool false) = str "false"
  encode (json_number n) = n
  encode (json_string s) = quote s
  encode (json_array xs) = b'[' ∷ join_list (encode_elements xs) ++ str "]"
  encode (json_object ms) = write_entries (encode_members ms)

  pub encode_elements : Elements → List Text
  encode_elements no_elements = []
  encode_elements (element v vs) = encode v ∷ encode_elements vs

  -- A key that is written twice has its last value.
  pub encode_members : Members → Dict Text Text
  encode_members no_members = []
  encode_members (named k v ms) =
      let rest = encode_members ms in if has rest k then rest else (k, encode v) ∷ rest

-- The text before the first occurrence of a byte, and the text after it.
unfoldable pub before : ℕ → Text → Text
before c [] = []
before c (d ∷ s) = let rest = before c s in if nat_beq d c then [] else d ∷ rest

unfoldable pub after : ℕ → Text → Text
after c [] = []
after c (d ∷ s) = let rest = after c s in if nat_beq d c then s else rest

unfoldable pub decimal : ℕ → Text → ℕ
decimal acc [] = acc
decimal acc (d ∷ s) = decimal (10 * acc + (d - b'0')) s

-- `strconv.FormatFloat(value, 'f', -1, 64)`: Marshal's digits without its exponent.
unfoldable pub format_float : Text → Text
unfolding before after decimal contains has_prefix
format_float n =
    let minus = has_prefix n (str "-") in
    let unsigned = if minus then drop 1 n else n in
    let sign = if minus then str "-" else [] in
    let mantissa = before b'e' unsigned in
    let exponent = after b'e' unsigned in
    let fraction = after b'.' mantissa in
    let digits = before b'.' mantissa ++ fraction in
    let power = decimal 0 (drop 1 exponent) in
    if not (contains n b'e')
    then n
    else if has_prefix exponent (str "-")
    then sign ++ str "0." ++ replicate (power - 1) b'0' ++ digits
    else sign ++ digits ++ replicate (power - length fraction) b'0'

-- The elements of an array as a slice, and the keys of an object.
unfoldable pub elements_of : Elements → List Json
elements_of no_elements = []
elements_of (element v vs) = v ∷ elements_of vs

unfoldable pub keys_of : Members → List Text
keys_of no_members = []
keys_of (named k v ms) = k ∷ keys_of ms
