-- ===== src/Store/Routing/Shared.antt =====
-- Sharing a digest between the destinations of one rule set changes nothing.
use tail_state.Prelude.{
  Bool-cases, Dict, Every, List, Option, Option-cases, [], inl, inr, insert, lookup, lookup-insert,
  nat_eq, none, refl, some, string_eq, sym, ℕ, ◌==◌, ◌∷◌, ◌≡◌, ◌⊎◌,
}
use tail_state.Text.{Text, text_eq, text_ordered}
use tail_state.Model.{Change}
use tail_state.Model.Severity.{Severity}
use tail_state.Store.Routing.{RoutingRules, rules_key}
use tail_state.Store.Outbox.{Outbox}
use tail_state.Store.Routing.Digest.{
  RoutedDestination, cached_render, enqueue_digest, enqueue_each_digest, queue_payload, render,
}
use tail_state.Store.Routing.Keys.{IsCanonical, rules_key_unique}

module _ (encode : List Change → Option (Text × Text)) (changes : List (Change × Severity)) where
  -- The map has the right payload for every canonical rule set.
  abbrev pub IsFaithful : Dict Text (Text × Text) → Type 0
  IsFaithful payloads =
      (r : RoutingRules) (payload : Text × Text)
      → IsCanonical r
      → lookup payloads (rules_key r) ≡ some payload
      → render encode changes r ≡ some payload

  IsFaithful-insert :
      (payloads : Dict Text (Text × Text)) (r : RoutingRules) (payload : Text × Text)
      → IsCanonical r
      → render encode changes r ≡ some payload
      → IsFaithful payloads
      → IsFaithful (insert payloads (rules_key r) payload)
  IsFaithful-insert payloads r payload canonical made faithful s found canonical' h =
      elim (Bool-cases (rules_key r == rules_key s)) [
        | inl same ↦
            let is : r ≡ s =
              rules_key_unique r s canonical canonical'
                ((text_eq.same_iff (rules_key r) (rules_key s)).0 same) in
            let this : payload ≡ found =
              cc (rw (lookup-insert payloads (rules_key r) (rules_key s) payload, same) at h) in
            rw (sym is) (rw (sym this) made)
        | inr other ↦
            faithful s found canonical'
              (rw (lookup-insert payloads (rules_key r) (rules_key s) payload, other) at h)
      ]

  -- The map gives what rendering gives, and stays faithful.
  cached_render-IsFaithful :
      (payloads : Dict Text (Text × Text)) (r : RoutingRules)
      → IsFaithful payloads
      → IsCanonical r
      → ((cached_render encode changes payloads r ≡ none) × (render encode changes r ≡ none))
        ⊎ ((payload : Text × Text) × (payloads' : Dict Text (Text × Text)) × (cached_render encode
                changes payloads r
              ≡ some (payload, payloads'))
            × (render encode changes r ≡ some payload)
            × IsFaithful payloads')
  unfolding cached_render
  cached_render-IsFaithful payloads r faithful canonical =
      elim (Option-cases (lookup payloads (rules_key r))) [
        | inr (payload, cached) ↦ inr (
          payload,
          payloads,
          rw (cached_render, cached) refl,
          faithful r payload canonical cached,
          faithful,
        )
        | inl missing ↦ elim (Option-cases (render encode changes r)) [
          | inl failed ↦ inl (rw (cached_render, missing, failed) refl, failed)
          | inr (payload, made) ↦ inr (
            payload,
            insert payloads (rules_key r) payload,
            rw (cached_render, missing, made) refl,
            made,
            IsFaithful-insert payloads r payload canonical made faithful,
          )
        ]
      ]

  -- With a faithful map, and canonical rules, the fan-out is the one without the map.
  enqueue_digest-faithful :
      (batch now : ℕ) (payloads : Dict Text (Text × Text)) (destinations : List RoutedDestination)
      (box : Outbox)
      → IsFaithful payloads
      → Every (λ d. IsCanonical d.rules) destinations
      → enqueue_digest encode changes batch now payloads destinations box
        ≡ enqueue_each_digest encode changes batch now destinations box
  unfolding enqueue_digest enqueue_each_digest
  enqueue_digest-faithful batch now payloads [] box faithful h = refl
  enqueue_digest-faithful batch now payloads (d ∷ destinations) box faithful h =
      elim (cached_render-IsFaithful payloads d.rules faithful h.0) [
        | inl (failed, failed') ↦ rw (failed, failed') refl
        | inr (payload, payloads', found, made, faithful') ↦
            rw (found, made)
              (enqueue_digest-faithful batch now payloads' destinations
                (queue_payload batch now payload d box) faithful' h.1)
      ]

-- For destinations with canonical rules, rendering one digest for each key queues what rendering
-- one for each destination does, or fails as that does.
pub enqueue_digest-shared :
    (encode : List Change → Option (Text × Text)) (changes : List (Change × Severity))
    (batch now : ℕ) (destinations : List RoutedDestination) (box : Outbox)
    → Every (λ d. IsCanonical d.rules) destinations
    → enqueue_digest encode changes batch now [] destinations box
      ≡ enqueue_each_digest encode changes batch now destinations box
enqueue_digest-shared encode changes batch now destinations box h =
    enqueue_digest-faithful encode changes batch now [] destinations box
      (λ r payload canonical found. absurd (unfold lookup in cc found)) h
