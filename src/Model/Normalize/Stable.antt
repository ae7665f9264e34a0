-- ===== src/Model/Normalize/Stable.antt =====
-- internal/model/model.go: a stored snapshot that is normalised again, as internal/store/snapshots.go
-- does before it compares it with a new one.
pub mod Again
use tail_state.Prelude.{
  Bool-cases, List, [], ap, arith, every_of, false, inl, inr, nat_eq, refl, some, stable_sort_idem,
  string_eq, sym, true, ◌==◌, ◌||◌, ◌∙◌, ◌∷◌, ◌≡◌,
}
use tail_state.Text.{
  Text, is_hex, lt_text, lt_text_irrefl, lt_text_trans, str, text_eq, text_ordered, to_lower,
}
use tail_state.Model.{Elements, Json, element, json_string, no_elements}
use tail_state.Model.Encoding.{elements_of, encode}
use tail_state.Model.Diff.{ordered_array}
use tail_state.Model.Normalize.{fingerprint_of, normalize_user_status, redacted_fingerprint}
use tail_state.Model.Normalize.Walk.{
  Treatment, arranged, descended, elements_from, encoding_before, fingerprinted, health_status,
  legacy_stream, redacted_value, skipped, treated, user_status,
}
use tail_state.Model.Normalize.Hides.{IsDigest, is_lower_hex}
use tail_state.Model.Normalize.Redaction.{redacted_value-IsFingerprint, redacted_value-known}

lt_text_asymmetric : (s t : Text) → lt_text s t ≡ true → lt_text t s ≡ false
lt_text_asymmetric s t h = elim (Bool-cases (lt_text t s)) [
  | inl back ↦ absurd (cc (sym (lt_text_irrefl s) ∙ lt_text_trans s t s h back))
  | inr never ↦ never
]

elements_of-elements_from : (vs : List Json) → elements_of (elements_from vs) ≡ vs
unfolding elements_of
elements_of-elements_from [] = refl
elements_of-elements_from (v ∷ vs) = ap (λ r. v ∷ r) (elements_of-elements_from vs)

pub elements_from-elements_of : (xs : Elements) → elements_from (elements_of xs) ≡ xs
unfolding elements_of
elements_from-elements_of no_elements = refl
elements_from-elements_of (element v vs) = ap (element v) (elements_from-elements_of vs)

pub arranged_idem :
    (collector path : Text) (xs : Elements)
    → arranged collector path (arranged collector path xs) ≡ arranged collector path xs
unfolding arranged
arranged_idem collector path xs = elim (Bool-cases (ordered_array collector path)) [
  | inl ordered ↦ rw (ordered, arranged) refl
  | inr free ↦
      rw (free, arranged)
        (rw
          (
            elements_of-elements_from,
            stable_sort_idem encoding_before (λ a b. lt_text_asymmetric (encode a) (encode b)),
          )
          refl)
]

normalize_user_status_idem :
    (v : Json) → normalize_user_status (normalize_user_status v) ≡ normalize_user_status v
unfolding normalize_user_status
normalize_user_status_idem (json_string s) =
    elim (Bool-cases (s == str "active" || s == str "idle")) [
      | inl shown ↦ rw shown refl
      | inr other ↦ rw other (rw other refl)
    ]
normalize_user_status_idem _ = refl

to_lower-hex : (s : Text) → every_of is_lower_hex s ≡ true → to_lower s ≡ s
unfolding to_lower every_of
to_lower-hex [] h = refl
to_lower-hex (c ∷ s) h = ground (arith, to_lower-hex s)

every_hex : (s : Text) → every_of is_lower_hex s ≡ true → every_of is_hex s ≡ true
unfolding every_of
every_hex [] h = refl
every_hex (c ∷ s) h = ground (arith, every_hex s)

-- A fingerprint is read back as it was written.
redacted_fingerprint-fingerprint_of :
    (text : Text) → IsDigest text → redacted_fingerprint (fingerprint_of text) ≡ some text
unfolding redacted_fingerprint
redacted_fingerprint-fingerprint_of text h =
    rw (h.0, every_hex text h.1, to_lower-hex text h.1) refl

module _ (digest : Text → Text) (digest_hex : (text : Text) → IsDigest (digest text)) where
  redacted_value_idem :
      (v : Json) → redacted_value digest (redacted_value digest v) ≡ redacted_value digest v
  redacted_value_idem v =
      let (text, is, hex) = redacted_value-IsFingerprint digest digest_hex v in
      rw is (
        redacted_value-known digest (fingerprint_of text) text
          (redacted_fingerprint-fingerprint_of text hex))

  -- What was written under a key is written there again.
  pub treated_idem :
      (t : Treatment) (child below w : Json) (again : Json → Json)
      → (t ≡ legacy_stream → ⊥)
      → (t ≡ health_status → ⊥)
      → again below ≡ below
      → treated digest t child below ≡ some w
      → treated digest t w (again w) ≡ some w
  unfolding treated
  treated_idem skipped child below w again l h i k = absurd (cc k)
  treated_idem legacy_stream child below w again l h i k = absurd (l refl)
  treated_idem health_status child below w again l h i k = absurd (h refl)
  treated_idem descended child below w again l h i k =
      let e : below ≡ w = cc k in rw (← e) (ap some i)
  treated_idem fingerprinted child below w again l h i k =
      let e : redacted_value digest child ≡ w = cc k in
      rw (← e) (ap some (redacted_value_idem child))
  treated_idem user_status child below w again l h i k =
      let e : normalize_user_status child ≡ w = cc k in
      rw (← e) (ap some (normalize_user_status_idem child))
