-- ===== src/Webhook/Signature.antt =====
-- `parseSignature` and `decodeSignature` of internal/webhook/webhook.go.
use tail_state.Prelude.{
  Bool, List, Option, [], drop, if◌then◌else◌, is_empty, leb, ltb, nat_beq, nat_eq, none, not, some,
  string_eq, ℕ, ◌&&◌, ◌*◌, ◌++◌, ◌+◌, ◌-◌, ◌==◌, ◌>>=◌, ◌^◌, ◌∷◌,
}
use tail_state.Text.{Text, eq_text, has_prefix, is_hex, str, text_eq, text_ordered, trim_space}
use tail_state.Store.Routing.Columns.{split_comma}

-- `strings.Cut` at a byte, where it is found.
unfoldable pub cut_at : ℕ → Text → Option (Text × Text)
cut_at sep [] = none
cut_at sep (c ∷ s) =
    let rest = cut_at sep s in
    if nat_beq c sep then some ([], s) else rest >>= (λ parts. some (c ∷ parts.0, parts.1))

abbrev pub is_digit : ℕ → Bool
is_digit c = leb b'0' c && leb c b'9'

unfoldable pub read_digits : ℕ → Text → Option ℕ
read_digits n [] = some n
read_digits n (c ∷ s) =
    let rest = read_digits (n * 10 + (c - b'0')) s in if is_digit c then rest else none

-- `strconv.ParseInt(s, 10, 64)`, where its result is positive.
unfoldable pub parse_positive : Text → Option ℕ
unfolding has_prefix read_digits
parse_positive s =
    let unsigned = if has_prefix s (str "+") then drop 1 s else s in
    if is_empty unsigned
    then none
    else read_digits 0 unsigned >>= (λ n. if ltb 0 n && ltb n (2 ^ 63) then some n else none)

-- One part of the header, after the timestamp and the signatures before it.
unfoldable pub read_part : Text → Option ℕ × List Text → Option (Option ℕ × List Text)
unfolding cut_at trim_space eq_text parse_positive
read_part part (timestamp, signatures) = elim (cut_at b'=' (trim_space part)) [
  | none ↦ some (timestamp, signatures)
  | some (key, raw) ↦
      let name = trim_space key in
      let value = trim_space raw in
      if name == str "t"
      then (elim timestamp [
        | some before ↦ none
        | none ↦ parse_positive value >>= (λ t. some (some t, signatures))
      ])
      else if name == str "v1" && not (is_empty value)
      then some (timestamp, signatures ++ (value ∷ []))
      else some (timestamp, signatures)
]

unfoldable pub read_parts : List Text → Option ℕ × List Text → Option (Option ℕ × List Text)
unfolding read_part
read_parts [] state = some state
read_parts (part ∷ parts) state = read_part part state >>= (λ next. read_parts parts next)

abbrev pub complete : Option ℕ × List Text → Option (ℕ × List Text)
complete (none, signatures) = none
complete (some timestamp, signatures) =
    if is_empty signatures then none else some (timestamp, signatures)

-- `parseSignature`.
unfoldable pub parse_signature : Text → Option (ℕ × List Text)
unfolding read_parts split_comma
parse_signature value = read_parts (split_comma value) (none, []) >>= complete

abbrev pub hex_value : ℕ → ℕ
hex_value c =
    if leb c b'9' then c - b'0' else if leb c b'F' then (c - b'A') + 10 else (c - b'a') + 10

-- `hex.DecodeString`.
unfoldable pub decode_hex : Text → Option Text
decode_hex [] = some []
decode_hex (a ∷ []) = none
decode_hex (a ∷ b ∷ s) =
    let rest = decode_hex s in
    if is_hex a && is_hex b
    then rest >>= (λ bytes. some ((hex_value a * 16 + hex_value b) ∷ bytes))
    else none

-- `decodeSignature`.
unfoldable pub decode_signature : Text → Option Text
unfolding decode_hex trim_space
decode_signature value = decode_hex (trim_space value)
