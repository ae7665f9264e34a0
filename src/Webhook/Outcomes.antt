-- ===== src/Webhook/Outcomes.antt =====
-- internal/webhook/webhook.go: which requests `Verify` accepts, and what it says of the others.
use tail_state.Prelude.{
  Bool-cases, List, Option, Option-cases, [], arith, false, inl, inr, is_empty, length, ltb, nat_eq,
  none, refl, some, string_eq, sym, true, ℕ, ◌<◌, ◌↔◌, ◌∙◌, ◌∷◌, ◌≡◌, ◌≤◌, ◌⊎◌,
}
use tail_state.Text.{Text, text_eq, text_ordered, trim_space}
use tail_state.Webhook.{
  Event, VerifiedDelivery, VerifyError, body_too_large, malformed_body, max_body_bytes,
  unauthenticated,
}
use tail_state.Webhook.Signature.{parse_signature}
use tail_state.Webhook.Verify.{accept, delivery_of, verify}
use tail_state.Webhook.Authentic.{Authentic, verify_header-cases}

module _ (mac : Text → Text → Text) (digest : Text → Text)
    (decode_events : Text → Option (List Event)) where
  module _ (body signature secret : Text) (now : ℕ) where
    abbrev pub outcome : VerifyError ⊎ VerifiedDelivery
    outcome = verify mac digest decode_events body signature secret now

    abbrev pub IsAuthentic : Type 0
    IsAuthentic = Authentic mac body signature secret now

    -- Taken on, empty, too large, or not authentic.
    abbrev Cases : Type 0
    Cases =
        (IsAuthentic × (outcome ≡ accept mac digest decode_events body))
        ⊎ ((is_empty body ≡ true) × (outcome ≡ inl malformed_body))
        ⊎ ((max_body_bytes < length body) × (outcome ≡ inl body_too_large))
        ⊎ ((IsAuthentic → ⊥)
            × (is_empty body ≡ false)
            × (length body ≤ max_body_bytes)
            × (outcome ≡ inl unauthenticated))

    verify-cases : Cases
    unfolding verify
    verify-cases = elim (Bool-cases (is_empty body)) [
      | inl empty ↦ inr (inl (empty, rw empty refl))
      | inr filled ↦ elim (Bool-cases (ltb max_body_bytes (length body))) [
        | inl large ↦ inr (inr (inl (ground (arith, large), rw (filled, large) refl)))
        | inr fits ↦
            let bound : length body ≤ max_body_bytes = ground (arith, fits) in
            elim (Bool-cases (is_empty (trim_space secret))) [
              | inl missing ↦ inr (
                  inr (
                    inr (
                      λ (a, b, kept, d). absurd (cc (sym missing ∙ kept)),
                      filled,
                      bound,
                      rw (filled, fits, missing) refl,
                    )))
              | inr configured ↦
                  elim (verify_header-cases mac digest decode_events body (trim_space secret) now
                    (parse_signature signature)) [
                      | inl (signed, e) ↦
                          inl ((filled, bound, configured, signed), rw (filled, fits, configured) e)
                      | inr (refuted, e) ↦ inr (
                          inr (
                            inr (
                              λ (a, b, c, signed). absurd (refuted signed),
                              filled,
                              bound,
                              rw (filled, fits, configured) e,
                            )))
                    ]
            ]
      ]
    ]

    accept-cases :
        ((events : List Event) × (decode_events body ≡ some events)
          × (accept mac digest decode_events body ≡ inr (delivery_of (digest body) events)))
        ⊎ ((decode_events body ≡ none)
            × (accept mac digest decode_events body ≡ inl malformed_body))
    unfolding accept
    accept-cases = elim (Option-cases (decode_events body)) [
      | inl missing ↦ inr (missing, rw (missing, accept) refl)
      | inr (events, there) ↦ inl (events, there, rw (there, accept) refl)
    ]

    abbrev pub Accepted : Type 0
    Accepted = (d : VerifiedDelivery) × (outcome ≡ inr d)

    abbrev pub Decodes : Type 0
    Decodes = (events : List Event) × (decode_events body ≡ some events)

    empty-length : is_empty body ≡ true → length body ≤ max_body_bytes
    empty-length h = filled body h
      where
        filled : (b : Text) → is_empty b ≡ true → length b ≤ max_body_bytes
        filled [] h = omega arith
        filled (c ∷ b) h = absurd (cc h)

    verify-accepted : Accepted ↔ (IsAuthentic × Decodes)
    verify-accepted = elim verify-cases [
      | inl (authentic, e) ↦ elim accept-cases [
        | inl (events, there, f) ↦
            (λ h. (authentic, (events, there)), λ h. (delivery_of (digest body) events, e ∙ f))
        | inr (missing, f) ↦ (
          λ (d, h). absurd (cc (sym (e ∙ f) ∙ h)),
          λ (h, (events, there)). absurd (cc (sym missing ∙ there)),
        )
      ]
      | inr (inl (empty, e)) ↦ (
        λ (d, h). absurd (cc (sym e ∙ h)),
        λ ((filled, b, c, s), h). absurd (cc (sym filled ∙ empty)),
      )
      | inr (inr (inl (large, e))) ↦ (
        λ (d, h). absurd (cc (sym e ∙ h)),
        λ ((filled, fits, c, s), h). absurd (omega (arith, large, fits)),
      )
      | inr (inr (inr (refuted, filled, fits, e))) ↦
          (λ (d, h). absurd (cc (sym e ∙ h)), λ (authentic, h). absurd (refuted authentic))
    ]

    -- What is accepted is made of the decoded events.
    pub accepted-is :
        (d : VerifiedDelivery)
        → outcome ≡ inr d
        → (events : List Event) × (delivery_of (digest body) events ≡ d)
    accepted-is d h = elim verify-cases [
      | inl (authentic, e) ↦ elim accept-cases [
        | inl (events, there, f) ↦ (events, cc (sym (e ∙ f) ∙ h))
        | inr (missing, f) ↦ absurd (cc (sym (e ∙ f) ∙ h))
      ]
      | inr (inl (empty, e)) ↦ absurd (cc (sym e ∙ h))
      | inr (inr (inl (large, e))) ↦ absurd (cc (sym e ∙ h))
      | inr (inr (inr (refuted, filled, fits, e))) ↦ absurd (cc (sym e ∙ h))
    ]

    verify-malformed :
        (outcome ≡ inl malformed_body)
        ↔ ((is_empty body ≡ true) ⊎ (IsAuthentic × (decode_events body ≡ none)))
    verify-malformed = elim verify-cases [
      | inl (authentic, e) ↦ elim accept-cases [
        | inl (events, there, f) ↦ (
          λ h. absurd (cc (sym (e ∙ f) ∙ h)),
          λ h. elim h [
            | inl empty ↦ absurd (cc (sym empty ∙ authentic.0))
            | inr (a, missing) ↦ absurd (cc (sym missing ∙ there))
          ],
        )
        | inr (missing, f) ↦ (λ h. inr (authentic, missing), λ h. e ∙ f)
      ]
      | inr (inl (empty, e)) ↦ (λ h. inl empty, λ h. e)
      | inr (inr (inl (large, e))) ↦ (
        λ h. absurd (cc (sym e ∙ h)),
        λ h. elim h [
          | inl empty ↦ absurd (omega (arith, large, empty-length empty))
          | inr ((filled, fits, c, s), missing) ↦ absurd (omega (arith, large, fits))
        ],
      )
      | inr (inr (inr (refuted, filled, fits, e))) ↦ (
        λ h. absurd (cc (sym e ∙ h)),
        λ h. elim h [
          | inl empty ↦ absurd (cc (sym filled ∙ empty))
          | inr (authentic, missing) ↦ absurd (refuted authentic)
        ],
      )
    ]

    verify-large : (outcome ≡ inl body_too_large) ↔ (max_body_bytes < length body)
    verify-large = elim verify-cases [
      | inl (authentic, e) ↦ elim accept-cases [
        | inl (events, there, f) ↦
            (λ h. absurd (cc (sym (e ∙ f) ∙ h)), λ h. absurd (omega (arith, h, authentic.1)))
        | inr (missing, f) ↦
            (λ h. absurd (cc (sym (e ∙ f) ∙ h)), λ h. absurd (omega (arith, h, authentic.1)))
      ]
      | inr (inl (empty, e)) ↦
          (λ h. absurd (cc (sym e ∙ h)), λ h. absurd (omega (arith, h, empty-length empty)))
      | inr (inr (inl (large, e))) ↦ (λ h. large, λ h. e)
      | inr (inr (inr (refuted, filled, fits, e))) ↦
          (λ h. absurd (cc (sym e ∙ h)), λ h. absurd (omega (arith, h, fits)))
    ]

    -- A request is accepted exactly if it is authentic and its body decodes: the body is not empty
    -- and at most 1 MiB, a secret is configured, the header has one timestamp, inside of the window
    -- of a day back and five minutes ahead, and one of its signatures is that of the timestamp and
    -- the body under the secret. A body is called malformed exactly if it is empty or authentic and
    -- does not decode, and too large exactly if it is longer; all else is not authenticated.
    pub verify-authentic :
        (Accepted ↔ (IsAuthentic × Decodes))
        × ((outcome ≡ inl malformed_body)
            ↔ ((is_empty body ≡ true) ⊎ (IsAuthentic × (decode_events body ≡ none))))
        × ((outcome ≡ inl body_too_large) ↔ (max_body_bytes < length body))
    verify-authentic = (verify-accepted, verify-malformed, verify-large)
