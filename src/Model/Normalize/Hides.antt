-- ===== src/Model/Normalize/Hides.antt =====
-- internal/model/model.go: what a normalised value never shows.
use tail_state.Prelude.{
  Bool, Bool-cases, arith, every_of, false, if◌then◌else◌, inl, inr, leb, length, nat_eq, refl,
  string_eq, true, ℕ, ◌&&◌, ◌==◌, ◌||◌, ◌≡◌, ◌⊎◌,
}
use tail_state.Text.{Text, eq_text, str, text_eq, text_ordered}
use tail_state.Model.{
  Elements, Json, Members, element, json_array, json_bool, json_object, named, no_elements,
  no_members,
}
use tail_state.Model.Diff.{compact_key}
use tail_state.Model.Normalize.{collector_field_allowed, fingerprint_of, tenant_key_section}
use tail_state.Model.Normalize.Walk.{
  Treatment, descended, fingerprinted, has_health_status, health_status, is_left_out, is_secret,
  legacy_stream, schema_treatment, skipped, treatment, user_status,
}

abbrev pub is_lower_hex : ℕ → Bool
is_lower_hex c = (leb b'0' c && leb c b'9') || (leb b'a' c && leb c b'f')

-- 64 hexadecimal digits, as `hex.EncodeToString` writes a SHA-256.
abbrev pub IsDigest : Text → Type 0
IsDigest text = (length text ≡ 64) × (every_of is_lower_hex text ≡ true)

abbrev pub IsFingerprint : Json → Type 0
IsFingerprint value = (text : Text) × (value ≡ fingerprint_of text) × IsDigest text

-- A status, of which the collector's own rule decides what is kept.
unfoldable pub is_status : Text → Text → Bool
unfolding eq_text
is_status collector name =
    (collector == str "users" || has_health_status collector) && name == str "status"

-- The value of a key, where `Inside` says the same of what is in it.
unfoldable pub HiddenField : Text → Bool → Text → Json → Type 0 → Type 0
unfolding is_secret is_status
HiddenField collector tenant_keys name v Inside =
    if tenant_keys
    then Inside
    else if is_secret name
    then IsFingerprint v
    else if is_status collector name
    then Unit
    else Inside

-- Wherever a key is not a tenant's name, a secret key, a URL and an endpoint hold a fingerprint.
unfoldable mutual
  unfolding HiddenField compact_key tenant_key_section

  pub Hidden : Text → Bool → Json → Type 0
  Hidden collector tenant_keys (json_object ms) = HiddenMembers collector tenant_keys ms
  Hidden collector tenant_keys (json_array xs) = HiddenElements collector xs
  Hidden collector tenant_keys _ = Unit

  pub HiddenElements : Text → Elements → Type 0
  HiddenElements collector no_elements = Unit
  HiddenElements collector (element v vs) = Hidden collector false v × HiddenElements collector vs

  pub HiddenMembers : Text → Bool → Members → Type 0
  HiddenMembers collector tenant_keys no_members = Unit
  HiddenMembers collector tenant_keys (named key v ms) =
      HiddenField collector tenant_keys (compact_key key) v
        (Hidden collector (tenant_key_section collector (compact_key key)) v)
      × HiddenMembers collector tenant_keys ms

pub Hidden-fingerprint :
    (collector : Text) (tenant_keys : Bool) (text : Text)
    → Hidden collector tenant_keys (fingerprint_of text)
unfolding Hidden HiddenField
Hidden-fingerprint collector true text = (tt, tt)
Hidden-fingerprint collector false text =
    elim (Bool-cases (is_status collector (str "redactedsha256"))) [
      | inl h ↦ rw h (tt, tt)
      | inr h ↦ rw h (tt, tt)
    ]

pub Hidden-configured :
    (collector : Text) (tenant_keys : Bool)
    → Hidden collector tenant_keys
        (json_object (named (str "configured") (json_bool false) no_members))
unfolding Hidden HiddenField
Hidden-configured collector true = (tt, tt)
Hidden-configured collector false = elim (Bool-cases (is_status collector (str "configured"))) [
  | inl h ↦ rw h (tt, tt)
  | inr h ↦ rw h (tt, tt)
]

-- The order of the tests of `schema_treatment`.
abbrev by_tests : Bool → Bool → Bool → Bool → Bool → Treatment
by_tests redacted dropped user health url =
    if redacted
    then fingerprinted
    else if dropped
    then skipped
    else if user
    then user_status
    else if health
    then health_status
    else if url
    then fingerprinted
    else descended

by_tests-descended : (a b c d e : Bool) → by_tests a b c d e ≡ descended → (a || e) ≡ false
by_tests-descended a b c d e h = ground arith

by_tests-status :
    (a b c d e : Bool) (t : Treatment)
    → (t ≡ user_status) ⊎ (t ≡ health_status)
    → by_tests a b c d e ≡ t
    → (c || d) ≡ true
by_tests-status a b c d e t (inl s) h = ground arith
by_tests-status a b c d e t (inr s) h = ground arith

by_tests-health : (a b c d e : Bool) → by_tests a b c d e ≡ health_status → d ≡ true
by_tests-health a b c d e h = ground arith

by_tests-legacy : (a b c d e : Bool) → by_tests a b c d e ≡ legacy_stream → ⊥
by_tests-legacy a b c d e h = ground arith

status-public : (name : Text) → name == str "status" ≡ true → is_secret name ≡ false
unfolding is_secret
status-public name h =
    let e : name ≡ str "status" = (text_eq.same_iff name (str "status")).0 h in rw e refl

pub schema-status :
    (collector name : Text) (t : Treatment)
    → (t ≡ user_status) ⊎ (t ≡ health_status)
    → schema_treatment collector name ≡ t
    → (is_secret name ≡ false) × (is_status collector name ≡ true)
unfolding schema_treatment is_status
schema-status collector name t e h =
    let found = by_tests-status _ _ _ _ _ t e h in
    (
      status-public name (
          of_status (collector == str "users") (has_health_status collector) (name == str "status")
            found),
      is_of (collector == str "users") (has_health_status collector) (name == str "status") found,
    )
  where
    of_status : (a b s : Bool) → ((a && s) || (b && s)) ≡ true → s ≡ true
    of_status a b s k = ground arith

    is_of : (a b s : Bool) → ((a && s) || (b && s)) ≡ true → ((a || b) && s) ≡ true
    is_of a b s k = ground arith

pub schema-health :
    (collector name : Text)
    → schema_treatment collector name ≡ health_status
    → has_health_status collector ≡ true
unfolding schema_treatment
schema-health collector name h =
    left (has_health_status collector) (name == str "status") (by_tests-health _ _ _ _ _ h)
  where
    left : (a b : Bool) → (a && b) ≡ true → a ≡ true
    left a b k = ground arith

pub schema-descended :
    (collector name : Text) → schema_treatment collector name ≡ descended → is_secret name ≡ false
unfolding schema_treatment is_secret
schema-descended collector name h = by_tests-descended _ _ _ _ _ h

schema-legacy : (collector name : Text) → schema_treatment collector name ≡ legacy_stream → ⊥
unfolding schema_treatment
schema-legacy collector name h = by_tests-legacy _ _ _ _ _ h

-- The keys at the root of a log stream.
log_stream-public :
    (path name : Text)
    → is_left_out (str "log_streaming") true false path name ≡ false
    → is_secret name ≡ false
unfolding is_left_out collector_field_allowed is_secret
log_stream-public path name h = elim (Bool-cases (str "configuration" == name)) [
  | inl is ↦
      let e : str "configuration" ≡ name = (text_eq.same_iff (str "configuration") name).0 is in
      rw (← e) refl
  | inr other ↦ elim (Bool-cases (str "network" == name)) [
    | inl is ↦
        let e : str "network" ≡ name = (text_eq.same_iff (str "network") name).0 is in rw (← e) refl
    | inr neither ↦ absurd (cc (rw (other, neither) at h))
  ]
]

-- The legacy form is read at the root of a log stream only.
pub treatment-legacy :
    (collector : Text) (root tenant_keys : Bool) (path name : Text) (child : Json)
    → treatment collector root tenant_keys path name child ≡ legacy_stream
    → (is_left_out collector root tenant_keys path name ≡ false)
      × (collector == str "log_streaming" ≡ true)
      × (root ≡ true)
unfolding treatment
treatment-legacy collector root tenant_keys path name child h = by_order _ _ _ _ tenant_keys h
  where
    by_order :
        (l c r g k : Bool)
        → (if l
            then skipped
            else if c && r && g
            then legacy_stream
            else if k
            then descended
            else schema_treatment collector name)
          ≡ legacy_stream
        → (l ≡ false) × (c ≡ true) × (r ≡ true)
    by_order true c r g k e = absurd (cc e)
    by_order false true true true k e = (refl, refl, refl)
    by_order false false r g true e = absurd (cc e)
    by_order false false r g false e = absurd (schema-legacy collector name e)
    by_order false true false g true e = absurd (cc e)
    by_order false true false g false e = absurd (schema-legacy collector name e)
    by_order false true true false true e = absurd (cc e)
    by_order false true true false false e = absurd (schema-legacy collector name e)

-- No key there is secret.
pub legacy_stream-secret :
    (collector : Text) (root : Bool) (path name : Text) (child : Json)
    → treatment collector root false path name child ≡ legacy_stream
    → is_secret name ≡ false
legacy_stream-secret collector root path name child h =
    let (kept, at_log, at_root) = treatment-legacy collector root false path name child h in
    let e : collector ≡ str "log_streaming" =
      (text_eq.same_iff collector (str "log_streaming")).0 at_log in
    log_stream-public path name (rw (e, at_root) at kept)
