-- ===== src/Model/Normalize/Redaction.antt =====
-- internal/model/model.go: `NormalizeFor` keeps no secret, at any depth.
pub mod Deep
use tail_state.Prelude.{
  Bool, Bool-cases, Option-cases, [], ap, arith, every_of, false, if◌then◌else◌, inl, inr, length,
  nat_beq_iff, nat_eq, none, refl, some, string_eq, suc, true, ◌&&◌, ◌∙◌, ◌∷◌, ◌≡◌, ◌⊎◌,
}
use tail_state.Text.{is_hex, Text, is_hex, str, text_eq, text_ordered, to_lower}
use tail_state.Model.{Json, json_bool, json_object, json_string, named, no_members}
use tail_state.Model.Normalize.{fingerprint_of, redacted_fingerprint}
use tail_state.Model.Normalize.Walk.{
  Treatment, descended, fingerprinted, health_status, is_secret, legacy_stream, redacted_value,
  schema_treatment, skipped, treated, treatment, user_status,
}
use tail_state.Model.Normalize.Hides.{
  HiddenField, IsDigest, IsFingerprint, is_lower_hex, is_status, legacy_stream-secret,
  schema-descended, schema-status,
}
use tail_state.Model.Encoding.{encode}

-- The tests before those of the schema.
pub treatment-status :
    (collector : Text) (root tenant_keys : Bool) (path name : Text) (child : Json) (t : Treatment)
    → (t ≡ user_status) ⊎ (t ≡ health_status)
    → treatment collector root tenant_keys path name child ≡ t
    → (tenant_keys ≡ false) × (schema_treatment collector name ≡ t)
unfolding treatment
treatment-status collector root tenant_keys path name child t s h = by_tests _ _ _ t s h
  where
    by_tests :
        (l g k : Bool) (t : Treatment)
        → (t ≡ user_status) ⊎ (t ≡ health_status)
        → (if l
            then skipped
            else if g
            then legacy_stream
            else if k
            then descended
            else schema_treatment collector name)
          ≡ t
        → (k ≡ false) × (schema_treatment collector name ≡ t)
    by_tests false false false t s h = (refl, h)
    by_tests true g k t (inl s) h = absurd (cc (h ∙ s))
    by_tests true g k t (inr s) h = absurd (cc (h ∙ s))
    by_tests false true k t (inl s) h = absurd (cc (h ∙ s))
    by_tests false true k t (inr s) h = absurd (cc (h ∙ s))
    by_tests false false true t (inl s) h = absurd (cc (h ∙ s))
    by_tests false false true t (inr s) h = absurd (cc (h ∙ s))

treatment-descended :
    (collector : Text) (root : Bool) (path name : Text) (child : Json)
    → treatment collector root false path name child ≡ descended
    → schema_treatment collector name ≡ descended
unfolding treatment
treatment-descended collector root path name child h = by_tests _ _ h
  where
    by_tests :
        (l g : Bool)
        → (if l then skipped else if g then legacy_stream else schema_treatment collector name)
          ≡ descended
        → schema_treatment collector name ≡ descended
    by_tests false false h = h
    by_tests true g h = absurd (cc h)
    by_tests false true h = absurd (cc h)

module _ (collector name : Text) (w : Json) (Inside : Type 0) where
  hidden_public :
      (tenant_keys : Bool)
      → is_secret name ≡ false
      → Inside
      → HiddenField collector tenant_keys name w Inside
  unfolding HiddenField
  hidden_public true h i = i
  hidden_public false h i = elim (Bool-cases (is_status collector name)) [
    | inl s ↦ rw (h, s) tt
    | inr s ↦ rw (h, s) i
  ]

  hidden_fingerprint :
      (tenant_keys : Bool)
      → IsFingerprint w
      → Inside
      → HiddenField collector tenant_keys name w Inside
  unfolding HiddenField
  hidden_fingerprint true f i = i
  hidden_fingerprint false f i = elim (Bool-cases (is_secret name)) [
    | inl s ↦ rw s f
    | inr s ↦ elim (Bool-cases (is_status collector name)) [
      | inl t ↦ rw (s, t) tt
      | inr t ↦ rw (s, t) i
    ]
  ]

  hidden_status :
      is_secret name ≡ false
      → is_status collector name ≡ true
      → HiddenField collector false name w Inside
  unfolding HiddenField
  hidden_status s t = rw (s, t) tt

module _ (digest : Text → Text) (value : Json) where
  redacted_value-fresh :
      redacted_fingerprint value ≡ none
      → redacted_value digest value ≡ fingerprint_of (digest (encode value))
  unfolding redacted_value
  redacted_value-fresh h = rw (h, redacted_value) refl

  pub redacted_value-known :
      (text : Text)
      → redacted_fingerprint value ≡ some text
      → redacted_value digest value ≡ fingerprint_of text
  unfolding redacted_value
  redacted_value-known text h = rw (h, redacted_value) refl

length-to_lower : (s : Text) → length (to_lower s) ≡ length s
unfolding to_lower
length-to_lower [] = refl
length-to_lower (c ∷ s) = ap suc (length-to_lower s)

every-to_lower : (s : Text) → every_of is_hex s ≡ true → every_of is_lower_hex (to_lower s) ≡ true
unfolding every_of to_lower
every-to_lower [] h = refl
every-to_lower (c ∷ s) h = ground (arith, every-to_lower s)

redacted_fingerprint-IsDigest :
    (value : Json) (text : Text) → redacted_fingerprint value ≡ some text → IsDigest text
unfolding redacted_fingerprint
redacted_fingerprint-IsDigest (json_object (named k (json_string encoded) no_members)) text h =
    let (all, is) = of_test _ (to_lower encoded) text h in
    let (start, hex) = both _ _ all in
    let (key, size) = both _ _ start in
    rw (← is) (
      length-to_lower encoded ∙ (nat_beq_iff (length encoded) 64).0 size,
      every-to_lower encoded hex,
    )
  where
    of_test : (b : Bool) (s t : Text) → (if b then some s else none) ≡ some t → (b ≡ true) × (s ≡ t)
    of_test true s t k = (refl, cc k)
    of_test false s t k = absurd (cc k)

    both : (a b : Bool) → (a && b) ≡ true → (a ≡ true) × (b ≡ true)
    both a b k = ground arith
redacted_fingerprint-IsDigest _ text h = absurd (cc h)

module _ (digest : Text → Text) (digest_hex : (text : Text) → IsDigest (digest text)) where
  pub redacted_value-IsFingerprint : (value : Json) → IsFingerprint (redacted_value digest value)
  unfolding redacted_value
  redacted_value-IsFingerprint value = elim (Option-cases (redacted_fingerprint value)) [
    | inl raw ↦
        (digest (encode value), redacted_value-fresh digest value raw, digest_hex (encode value))
    | inr (text, known) ↦ (
      text,
      redacted_value-known digest value text known,
      redacted_fingerprint-IsDigest value text known,
    )
  ]

  -- What is written under a key hides what the key must hide.
  pub treated-Hidden :
      (collector : Text) (root tenant_keys : Bool) (path name : Text) (child below w : Json)
      (Inside : Json → Type 0) (t : Treatment)
      → treatment collector root tenant_keys path name child ≡ t
      → treated digest t child below ≡ some w
      → Inside below
      → ((text : Text) → Inside (fingerprint_of text))
      → Inside (json_object (named (str "configured") (json_bool false) no_members))
      → HiddenField collector tenant_keys name w (Inside w)
  unfolding HiddenField treated
  treated-Hidden collector root tenant_keys path name child below w Inside skipped h k i f c =
      absurd (cc k)
  treated-Hidden collector root true path name child below w Inside legacy_stream h k i f c =
      let e : json_object (named (str "configured") (json_bool false) no_members) ≡ w = cc k in
      rw (← e) c
  treated-Hidden collector root false path name child below w Inside legacy_stream h k i f c =
      hidden_public collector name w (Inside w) false
        (legacy_stream-secret collector root path name child h)
        (let e : json_object (named (str "configured") (json_bool false) no_members) ≡ w = cc k in
          rw (← e) c)
  treated-Hidden collector root tenant_keys path name child below w Inside fingerprinted h k i f c =
      let e : redacted_value digest child ≡ w = cc k in
      let (text, is, hex) = redacted_value-IsFingerprint child in
      rw (← e) (
        hidden_fingerprint collector name (redacted_value digest child)
          (Inside (redacted_value digest child)) tenant_keys (text, is, hex) (rw is (f text)))
  treated-Hidden collector root tenant_keys path name child below w Inside user_status h k i f c =
      let (free, schema) =
        treatment-status collector root tenant_keys path name child user_status (inl refl) h in
      let (public_name, status) = schema-status collector name user_status (inl refl) schema in
      rw free (hidden_status collector name w (Inside w) public_name status)
  treated-Hidden collector root tenant_keys path name child below w Inside health_status h k i f c =
      let (free, schema) =
        treatment-status collector root tenant_keys path name child health_status (inr refl) h in
      let (public_name, status) = schema-status collector name health_status (inr refl) schema in
      rw free (hidden_status collector name w (Inside w) public_name status)
  treated-Hidden collector root true path name child below w Inside descended h k i f c =
      let e : below ≡ w = cc k in rw (← e) i
  treated-Hidden collector root false path name child below w Inside descended h k i f c =
      hidden_public collector name w (Inside w) false
        (schema-descended collector name (treatment-descended collector root path name child h))
        (let e : below ≡ w = cc k in rw (← e) i)
