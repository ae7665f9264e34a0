-- ===== src/Store/Routing/Digest.antt =====
-- internal/store/routing.go: `enqueueDigestTx`, which fans one batch of changes out.
use tail_state.Prelude.{
  Dict, List, Option, [], if◌then◌else◌, insert, is_empty, lookup, nat_eq, none, some, string_eq, ℕ,
  ◌>>=◌, ◌∷◌,
}
use tail_state.Text.{Text, text_eq, text_ordered}
use tail_state.Model.{Change}
use tail_state.Model.Severity.{Severity}
use tail_state.Store.Routing.{RoutingRules, matches, rules_key}
use tail_state.Store.Outbox.{Outbox, insert_row, queued_row}

pub record RoutedDestination : Type 0 where
  pub id : ℕ
  pub rules : RoutingRules

-- The changes that the rules route; each comes with its severity.
unfoldable pub routed_changes : RoutingRules → List (Change × Severity) → List Change
unfolding matches
routed_changes rules [] = []
routed_changes rules ((change, severity) ∷ changes) =
    let rest = routed_changes rules changes in
    if matches rules change severity then change ∷ rest else rest

-- The format and the body that a rule set renders to, both empty when nothing is routed. `encode`
-- stands for `notify.EncodePayload(digest(filtered))`, which may fail.
unfoldable pub render :
    (List Change → Option (Text × Text))
    → List (Change × Severity)
    → RoutingRules
    → Option (Text × Text)
unfolding routed_changes
render encode changes rules =
    let kept = routed_changes rules changes in if is_empty kept then some ([], []) else encode kept

-- One INSERT, unless the body is empty.
unfoldable pub queue_payload : ℕ → ℕ → Text × Text → RoutedDestination → Outbox → Outbox
queue_payload batch now (format, body) d box =
    if is_empty body then box else insert_row (queued_row format body now (some batch) d.id) box

-- The payload of a destination, from the map where its key has one.
unfoldable pub cached_render :
    (List Change → Option (Text × Text))
    → List (Change × Severity)
    → Dict Text (Text × Text)
    → RoutingRules
    → Option ((Text × Text) × Dict Text (Text × Text))
unfolding render
cached_render encode changes payloads rules = elim (lookup payloads (rules_key rules)) [
  | some payload ↦ some (payload, payloads)
  | none ↦
      (render encode changes rules >>= λ payload.
      some (payload, insert payloads (rules_key rules) payload))
]

-- `enqueueDigestTx` from the destinations on; `none` is an error, which rolls back.
unfoldable pub enqueue_digest :
    (List Change → Option (Text × Text))
    → List (Change × Severity)
    → ℕ
    → ℕ
    → Dict Text (Text × Text)
    → List RoutedDestination
    → Outbox
    → Option Outbox
enqueue_digest encode changes batch now payloads [] box = some box
enqueue_digest encode changes batch now payloads (d ∷ destinations) box =
    (cached_render encode changes payloads d.rules >>= λ found.
    enqueue_digest encode changes batch now found.1 destinations
      (queue_payload batch now found.0 d box))

-- The fan-out without the map: each destination has its own digest.
unfoldable pub enqueue_each_digest :
    (List Change → Option (Text × Text))
    → List (Change × Severity)
    → ℕ
    → ℕ
    → List RoutedDestination
    → Outbox
    → Option Outbox
enqueue_each_digest encode changes batch now [] box = some box
enqueue_each_digest encode changes batch now (d ∷ destinations) box =
    (render encode changes d.rules >>= λ payload.
    enqueue_each_digest encode changes batch now destinations
      (queue_payload batch now payload d box))
