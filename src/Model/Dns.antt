-- ===== src/Model/Dns.antt =====
-- internal/model/dns.go: DNS snapshots of two shapes, and what both of them express.
use tail_state.Prelude.{
  Bool, List, Option, [], contains, false, if◌then◌else◌, is_empty, nat_eq, none, some, stable_sort,
  string_eq, true, ◌&&◌, ◌++◌, ◌==◌, ◌>>=◌, ◌||◌, ◌∷◌,
}
use tail_state.Text.{Text, eq_text, lt_text, str, text_eq, text_ordered}
use tail_state.Model.{
  Elements, Json, Members, element, json_array, json_bool, json_object, json_string, member, named,
  no_elements, no_members,
}
use tail_state.Model.Encoding.{elements_of, encode}

pub data DnsShape : Type 0 where
  dns_unknown : DnsShape
  dns_legacy : DnsShape
  dns_configuration : DnsShape

abbrev pub has_key : Members → Text → Bool
has_key ms key = elim (member ms key) [ none ↦ false | some v ↦ true ]

-- `value[key].(map[string]any)` has a map, and `.([]any)` a list.
abbrev pub is_object_at : Members → Text → Bool
is_object_at ms key = elim (member ms key) [ some (json_object inner) ↦ true | _ ↦ false ]

abbrev pub is_array_at : Members → Text → Bool
is_array_at ms key = elim (member ms key) [ some (json_array xs) ↦ true | _ ↦ false ]

-- `dnsShape`.
unfoldable pub dns_shape : Members → DnsShape
unfolding member
dns_shape value =
    if has_key value (str "split-dns")
    then dns_legacy
    else if has_key value (str "searchpaths")
    then dns_legacy
    else if is_object_at value (str "nameservers")
    then dns_legacy
    else if has_key value (str "splitDNS")
    then dns_configuration
    else if has_key value (str "searchPaths")
    then dns_configuration
    else if is_array_at value (str "nameservers")
    then dns_configuration
    else dns_unknown

-- `object, _ := value[key].(map[string]any)`: a missing one is empty.
unfoldable pub object_member : Members → Text → Members
unfolding member
object_member ms key = elim (member ms key) [ some (json_object inner) ↦ inner | _ ↦ no_members ]

-- `legacyUnsupported`.
unfoldable pub legacy_unsupported : Members → Bool
unfolding eq_text
legacy_unsupported (named k (json_bool unsupported) no_members) =
    k == str "unsupported" && unsupported
legacy_unsupported _ = false

abbrev pub list_elements : Option Json → List Json
list_elements (some (json_array xs)) = elements_of xs
list_elements _ = []

-- `boolValue`.
abbrev pub bool_value : Option Json → Bool
bool_value (some (json_bool b)) = b
bool_value _ = false

-- The strings of a list.
unfoldable pub strings_in : List Json → List Text
strings_in [] = []
strings_in (json_string s ∷ vs) = s ∷ strings_in vs
strings_in (_ ∷ vs) = strings_in vs

-- `stringValues`.
abbrev pub string_values : Option Json → List Text
string_values value = strings_in (list_elements value)

-- The addresses of a list of resolvers.
unfoldable pub addresses_in : List Json → List Text
unfolding member
addresses_in [] = []
addresses_in (json_object resolver ∷ vs) =
    let rest = addresses_in vs in
    elim (member resolver (str "address")) [
      | some (json_string address) ↦ address ∷ rest
      | _ ↦ rest
    ]
addresses_in (json_string resolver ∷ vs) = resolver ∷ addresses_in vs
addresses_in (_ ∷ vs) = addresses_in vs

-- `resolverAddresses`.
abbrev pub resolver_addresses : Option Json → List Text
resolver_addresses value = addresses_in (list_elements value)

-- `sortedStrings`.
unfoldable pub sorted_strings : List Text → List Text
unfolding stable_sort lt_text
sorted_strings values = stable_sort lt_text values

unfoldable pub text_elements : List Text → Elements
text_elements [] = no_elements
text_elements (s ∷ values) = element (json_string s) (text_elements values)

abbrev pub text_array : List Text → Json
text_array values = json_array (text_elements values)

-- The domains that have an address, with `read` for the resolvers of one.
unfoldable pub split_domains : (Option Json → List Text) → Members → Members
unfolding sorted_strings text_elements
split_domains read no_members = no_members
split_domains read (named domain resolvers object) =
    let rest = split_domains read object in
    let addresses = sorted_strings (read (some resolvers)) in
    if is_empty addresses then rest else named domain (text_array addresses) rest

-- A section of the legacy shape: its name and value, or that it was not readable.
unfoldable pub legacy_section :
    Members → Text → Text → (Members → Json) → Members × List Text → Members × List Text
unfolding object_member legacy_unsupported
legacy_section value key name read (out, missing) =
    let object = object_member value key in
    if legacy_unsupported object
    then (out, name ∷ missing)
    else (named name (read object) out, missing)

unfoldable pub project_legacy : Members → Members × List Text
unfolding legacy_section member split_domains strings_in text_elements
project_legacy value =
    legacy_section value (str "split-dns") (str "splitDNS")
      (λ object. json_object (split_domains string_values object))
      (legacy_section value (str "searchpaths") (str "searchPaths")
        (λ object. text_array (string_values (member object (str "searchPaths"))))
        (legacy_section value (str "preferences") (str "magicDNS")
          (λ object. json_bool (bool_value (member object (str "magicDNS"))))
          (legacy_section value (str "nameservers") (str "nameservers")
            (λ object. text_array (string_values (member object (str "dns")))) (no_members, []))))

unfoldable pub project_configuration : Members → Members
unfolding member object_member split_domains addresses_in strings_in text_elements
project_configuration value =
    named (str "nameservers") (text_array (resolver_addresses (member value (str "nameservers")))) (
      named (str "magicDNS")
        (json_bool (bool_value (member (object_member value (str "preferences")) (str "magicDNS"))))
        (named (str "searchPaths") (text_array (string_values (member value (str "searchPaths")))) (
          named (str "splitDNS")
            (json_object (split_domains resolver_addresses (object_member value (str "splitDNS"))))
            no_members)))

-- `projectDNS`.
unfoldable pub project_dns : Members → DnsShape → Members × List Text
unfolding project_legacy project_configuration
project_dns value dns_legacy = project_legacy value
project_dns value _ = (project_configuration value, [])

-- `delete(projection, section)` for each section that is unknown.
unfoldable pub without : List Text → Members → Members
unfolding contains eq_text
without sections no_members = no_members
without sections (named k v ms) =
    let rest = without sections ms in if contains sections k then rest else named k v rest

abbrev pub same_shape : DnsShape → DnsShape → Bool
same_shape dns_unknown dns_unknown = true
same_shape dns_legacy dns_legacy = true
same_shape dns_configuration dns_configuration = true
same_shape _ _ = false

-- The two projections, where the shapes differ and both are known.
unfoldable pub dns_transition : Members → Members → Option (Members × Members)
unfolding dns_shape project_dns without
dns_transition old new =
    let old_shape = dns_shape old in
    let new_shape = dns_shape new in
    let (old_out, old_missing) = project_dns old old_shape in
    let (new_out, new_missing) = project_dns new new_shape in
    let missing = old_missing ++ new_missing in
    if same_shape old_shape dns_unknown
      || same_shape new_shape dns_unknown
      || same_shape old_shape new_shape
    then none
    else some (without missing old_out, without missing new_out)

abbrev pub decoded_object : Option Json → Option Members
decoded_object (some (json_object ms)) = some ms
decoded_object _ = none

-- `ShapeTransition`: the two values to compare, as canonical JSON, where it is a transition.
unfoldable pub shape_transition : (Text → Option Json) → Text → Text → Text → Option (Text × Text)
unfolding eq_text dns_transition encode
shape_transition decode collector old_raw new_raw =
    if collector == str "dns"
    then decoded_object (decode old_raw) >>= (λ old. decoded_object (decode new_raw) >>= (λ new.
      dns_transition old new
      >>= (λ both. some (encode (json_object both.0), encode (json_object both.1)))))
    else none
