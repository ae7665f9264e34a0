-- ===== src/Webhook/Authentic.antt =====
-- internal/webhook/webhook.go: the requests that `Verify` takes for authentic.
use tail_state.Prelude.{
  ==_refl, Bool, Bool-cases, List, Option, [], ap, arith, contains, false, inl, inr, is_empty,
  length, nat_eq, none, refl, some, some_of, string_eq, sym, true, ℕ, ◌*◌, ◌+◌, ◌==◌, ◌↔◌, ◌∙◌, ◌∷◌,
  ◌≡◌, ◌≤◌, ◌⊎◌,
}
use tail_state.Text.{Text, eq_text_iff, text_eq, text_ordered, trim_space}
use tail_state.Webhook.{Event, max_body_bytes, max_future_skew, max_signature_age, unauthenticated}
use tail_state.Webhook.Signature.{decode_signature, parse_signature}
use tail_state.Webhook.Verify.{accept, in_window, is_signature, signed_message, verify_header}

module _ (mac : Text → Text → Text) where
  -- A header whose time is inside of the window, with a signature of the body.
  abbrev pub SignedBy : Text → Text → ℕ → Option (ℕ × List Text) → Type 0
  SignedBy body key now none = ⊥
  SignedBy body key now (some (timestamp, signatures)) =
      (timestamp * 1000000000 ≤ now + max_future_skew)
      × (now ≤ timestamp * 1000000000 + max_signature_age)
      × ((encoded : Text) × (contains signatures encoded ≡ true)
          × (decode_signature encoded ≡ some (mac key (signed_message timestamp body))))

  abbrev pub Authentic : Text → Text → Text → ℕ → Type 0
  Authentic body signature secret now =
      (is_empty body ≡ false)
      × (length body ≤ max_body_bytes)
      × (is_empty (trim_space secret) ≡ false)
      × SignedBy body (trim_space secret) now (parse_signature signature)

module _ (test : Text → Bool) where
  some_of-found :
      (xs : List Text)
      → some_of test xs ≡ true
      → (x : Text) × (contains xs x ≡ true) × (test x ≡ true)
  unfolding some_of contains
  some_of-found [] h = absurd (cc h)
  some_of-found (x ∷ xs) h = elim (Bool-cases (test x)) [
    | inl passes ↦ (x, rw (==_refl x) refl, passes)
    | inr fails ↦
        let (y, there, passes) = some_of-found xs (rw fails at h) in
        (y, ground (arith, there), passes)
  ]

  found-some_of :
      (xs : List Text) (x : Text) → contains xs x ≡ true → test x ≡ true → some_of test xs ≡ true
  unfolding some_of contains
  found-some_of [] x h k = absurd (cc h)
  found-some_of (y ∷ ys) x h k = elim (Bool-cases (y == x)) [
    | inl same ↦ let is : y ≡ x = (eq_text_iff y x).0 same in rw (is, k) refl
    | inr other ↦ ground (arith, other, h, found-some_of ys x)
  ]

module _ (want : Text) where
  decoded :
      (o : Option Text)
      → ((elim o [ none ↦ false | some provided ↦ provided == want ]) ≡ true) ↔ (o ≡ some want)
  decoded none = (λ h. absurd (cc h), λ h. absurd (cc h))
  decoded (some provided) =
      (λ h. ap some ((eq_text_iff provided want).0 h), λ h. (eq_text_iff provided want).1 (cc h))

  is_signature_iff :
      (encoded : Text) → (is_signature want encoded ≡ true) ↔ (decode_signature encoded ≡ some want)
  is_signature_iff encoded = decoded (decode_signature encoded)

  some_signature :
      (signatures : List Text)
      → (some_of (is_signature want) signatures ≡ true) ↔ (
          (encoded : Text) × (contains signatures encoded ≡ true)
          × (decode_signature encoded ≡ some want))
  some_signature signatures = (
    λ h.
        let (encoded, there, is) = some_of-found (is_signature want) signatures h in
        (encoded, there, (is_signature_iff encoded).0 is),
    λ (encoded, there, is).
        found-some_of (is_signature want) signatures encoded there
          ((is_signature_iff encoded).1 is),
  )

module _ (mac : Text → Text → Text) (digest : Text → Text)
    (decode_events : Text → Option (List Event)) where
  -- Signed and taken on, or refused.
  pub verify_header-cases :
      (body key : Text) (now : ℕ) (header : Option (ℕ × List Text))
      → (SignedBy mac body key now header
          × (verify_header mac digest decode_events body key now header
              ≡ accept mac digest decode_events body))
        ⊎ ((SignedBy mac body key now header → ⊥)
            × (verify_header mac digest decode_events body key now header ≡ inl unauthenticated))
  unfolding verify_header
  verify_header-cases body key now none = inr (λ h. h, refl)
  verify_header-cases body key now (some (timestamp, signatures)) =
      elim (Bool-cases (in_window timestamp now)) [
        | inr outside ↦
            inr (λ (early, late, signed). ground (arith, outside, early, late), rw outside refl)
        | inl inside ↦
            elim (Bool-cases
              (some_of (is_signature (mac key (signed_message timestamp body))) signatures)) [
                | inl signed ↦ inl (
                  (
                    ground (arith, inside),
                    ground (arith, inside),
                    (some_signature (mac key (signed_message timestamp body)) signatures).0 signed,
                  ),
                  rw (inside, signed) refl,
                )
                | inr forged ↦ inr (
                  λ (early, late, signed). absurd (
                      cc (
                        sym forged
                        ∙ (some_signature (mac key (signed_message timestamp body)) signatures).1
                            signed)),
                  rw (inside, forged) refl,
                )
              ]
      ]
