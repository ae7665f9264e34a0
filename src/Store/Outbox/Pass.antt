-- ===== src/Store/Outbox/Pass.antt =====
-- What a pass of `ClaimDueOutbox` means for a worker whose lease ran out.
use tail_state.Prelude.{
  Bool, List, Option, Option-cases, [], arith, false, inl, inr, nat_eq, none, not, some, some_of,
  string_eq, suc, ℕ, ◌&&◌, ◌∙◌, ◌∷◌, ◌≡◌, ◌⊎◌,
}
use tail_state.Text.{Text, eq_text, text_eq, text_ordered}
use tail_state.Store.Table.{some_of-update_where_fails, update_where}
use tail_state.Store.Outbox.{Destination, OutboxRow}
use tail_state.Store.Outbox.Claim.{
  bury_unreadable, claim_due_outbox, committed_claims, expired_row, is_abandoned, is_expired,
  is_still_waiting, lease_items, leased_row, open_outbox, requeued_row,
}
use tail_state.Store.Outbox.Finish.{owns, renew_claimed, renewed_row}
use tail_state.Store.Outbox.Fence.{
  Action, act, act-update_claimed, row_after, update_claimed-disowned,
}

-- The row is owned by the item under a lease that still runs.
abbrev pub owns_live : ℕ → OutboxRow → OutboxRow → Bool
owns_live now item o = owns item o && not (is_abandoned now o)

bury_unreadable-disowned :
    (item : OutboxRow) (now : ℕ) (reason : OutboxRow → Text) (unreadable rows : List OutboxRow)
    → some_of (owns item) rows ≡ false
    → some_of (owns item) (bury_unreadable now reason unreadable rows) ≡ false
unfolding bury_unreadable
bury_unreadable-disowned item now reason [] rows free = free
bury_unreadable-disowned item now reason (o ∷ unreadable) rows free =
    bury_unreadable-disowned item now reason unreadable _ (
      some_of-update_where_fails (owns item) (is_still_waiting o.id) (owns item) _ rows
        (λ t h. ground arith) free)

-- The tokens that a pass draws are not the item's.
abbrev pub FreshTokens : OutboxRow → (ℕ → Option Text) → Type 0
FreshTokens item tokens =
    (i : ℕ) (token : Text) → tokens i ≡ some token → eq_text token item.lease_token ≡ false

-- Inversion of one round of the loop.
pub item_head :
    (until : ℕ) (tokens : ℕ → Option Text) (i : ℕ) (o : OutboxRow)
    (items rows claims rows' : List OutboxRow)
    → lease_items until tokens i (o ∷ items) rows ≡ some (claims, rows')
    → (token : Text) × (rest : List OutboxRow) × (tokens i ≡ some token)
      × (lease_items until tokens
            (suc i)
            items
            (update_where (is_still_waiting o.id) (leased_row until token) rows)
          ≡ some (rest, rows'))
      × ((claims ≡ leased_row until token o ∷ rest) ⊎ (claims ≡ rest))
unfolding lease_items
item_head until tokens i o items rows claims rows' h = elim (Option-cases (tokens i)) [
  | inl unmade ↦ absurd (ground (arith, h, unmade))
  | inr (token, made) ↦
      let between = update_where (is_still_waiting o.id) (leased_row until token) rows in
      elim (Option-cases (lease_items until tokens (suc i) items between)) [
        | inl stopped ↦ absurd (ground (arith, h, made, stopped))
        | inr ((rest, rows_end), went_on) ↦
            (token, rest, made, ground (arith, h, made, went_on), ground (arith, h, made, went_on))
      ]
]

lease_items-disowned :
    (item : OutboxRow) (until : ℕ) (tokens : ℕ → Option Text) (i : ℕ)
    (items rows claims rows' : List OutboxRow)
    → FreshTokens item tokens
    → lease_items until tokens i items rows ≡ some (claims, rows')
    → some_of (owns item) rows ≡ false
    → some_of (owns item) rows' ≡ false
lease_items-disowned item until tokens i [] rows claims rows' fresh h free =
    let same : rows ≡ rows' = unfold lease_items in cc h in rw same at free
lease_items-disowned item until tokens i (o ∷ items) rows claims rows' fresh h free =
    let (token, rest, drawn, tail, head) = item_head until tokens i o items rows claims rows' h in
    lease_items-disowned item until tokens (suc i) items _ rest rows' fresh tail (
      some_of-update_where_fails (owns item) (is_still_waiting o.id) (owns item)
        (leased_row until token) rows (λ t quiet. ground (arith, fresh i token drawn)) free)

pub committed_claims-some :
    (run : Option (List OutboxRow × List OutboxRow)) (rows : List OutboxRow)
    {claims rows' : List OutboxRow}
    → committed_claims rows run ≡ (some claims, rows')
    → run ≡ some (claims, rows')
unfolding committed_claims
committed_claims-some none rows h = absurd (cc h)
committed_claims-some (some (c, r)) rows h = ground arith

-- The statements that open a pass leave the row to nobody whose lease has run out.
open_outbox-disowned :
    (item : OutboxRow) (now : ℕ) (rows : List OutboxRow)
    → some_of (owns_live now item) rows ≡ false
    → some_of (owns item) (open_outbox now rows) ≡ false
unfolding open_outbox expired_row
open_outbox-disowned item now rows idle =
    some_of-update_where_fails (owns item) (is_expired now) (owns item) (expired_row now) _
      (λ t h. ground arith)
      (some_of-update_where_fails (owns_live now item) (is_abandoned now) (owns item) requeued_row
        rows (λ t h. ground arith) idle)

-- When a pass commits under tokens that are not the item's, at a time at which every lease of the
-- item has run out, then no action on the item, and no renewal, changes the outbox any more.
pub claim-disowns :
    (opens : ℕ → Text → Bool) (reason : OutboxRow → Text) (now limit lease : ℕ)
    (tokens : ℕ → Option Text) (destinations : List Destination) (item : OutboxRow)
    (rows claims rows' : List OutboxRow)
    → claim_due_outbox opens reason now limit lease tokens destinations rows ≡ (some claims, rows')
    → FreshTokens item tokens
    → some_of (owns_live now item) rows ≡ false
    → ((safe : Text → Text) (a : Action) → act safe a item rows' ≡ (false, rows'))
      × ((later lease' : ℕ) → renew_claimed later lease' item rows' ≡ (false, rows'))
unfolding claim_due_outbox renew_claimed
claim-disowns opens reason now limit lease tokens destinations item rows claims rows' h fresh idle =
    let free =
      lease_items-disowned item _ tokens 0 _ _ claims rows' fresh (committed_claims-some _ rows h)
        (bury_unreadable-disowned item now reason _ _ (open_outbox-disowned item now rows idle)) in
    (
      (λ safe a.
          act-update_claimed safe a item rows'
          ∙ update_claimed-disowned item (row_after safe a) rows' free),
      (λ later lease'. update_claimed-disowned item (renewed_row _) rows' free),
    )
