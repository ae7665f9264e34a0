-- ===== src/Store/Triggers/Due.antt =====
-- The read-only probe against the claim transaction that it saves.
use tail_state.Prelude.{
  Bool, Bool-cases, List, Option, Option-cases, [], ap, ap₂, arith, false, inl, inr, keep_if, leb,
  nat_eq, none, refl, some, string_eq, suc, sym, take, true, zero, ℕ, ◌&&◌, ◌+◌, ◌<◌, ◌>>=◌, ◌||◌,
  ◌↔◌, ◌∙◌, ◌∷◌, ◌≡◌,
}
use tail_state.Store.Triggers.{
  Trigger, horizon_passed, is_due, is_pending, is_processing, lease_expired, lease_or_default,
  read_row,
}
use tail_state.Store.Triggers.Claim.{
  claim_webhook_triggers, committed, has_due_webhook_triggers, lease_selected, limit_or_default,
  read_rows, reclaim,
}
use tail_state.Store.Triggers.Lease.{reclaimed}
use tail_state.Text.{Text, text_eq, text_ordered}
use tail_state.Store.Table.{update_where}

-- The test of one row in `HasDueWebhookTriggers`.
abbrev is_actionable : ℕ → Trigger → Bool
is_actionable now t =
    (is_pending t.status && (leb t.next_attempt now || horizon_passed now t))
    || (is_processing t.status && lease_expired now t)

idle_row :
    (now : ℕ) (t : Trigger)
    → is_actionable now t ≡ false
    → (reclaimed now t ≡ t) × (is_due now t ≡ false)
unfolding reclaimed
idle_row now t h = (ground arith, ground arith)

idle_row-converse :
    (now : ℕ) (t : Trigger)
    → reclaimed now t ≡ t
    → is_due now t ≡ false
    → is_actionable now t ≡ false
unfolding reclaimed
idle_row-converse now t same due = ground arith

pub reclaim-cons :
    (now : ℕ) (t : Trigger) (rows : List Trigger)
    → reclaim (λ _. true) now (t ∷ rows) ≡ reclaimed now t ∷ reclaim (λ _. true) now rows
unfolding reclaim reclaimed update_where
reclaim-cons now t rows = refl

idle_rows :
    (now : ℕ) (rows : List Trigger)
    → has_due_webhook_triggers now rows ≡ false
    → (reclaim (λ _. true) now rows ≡ rows) × (keep_if (is_due now) rows ≡ [])
unfolding has_due_webhook_triggers keep_if
idle_rows now [] h = (unfold reclaim update_where in refl, refl)
idle_rows now (t ∷ rows) h =
    let (same, due) = idle_row now t (ground arith) in
    let (rest, none_due) = idle_rows now rows (ground arith) in
    (reclaim-cons now t rows ∙ ap₂ ◌∷◌ same rest, rw due none_due)

idle_parts :
    (now : ℕ) (t : Trigger) (rows : List Trigger)
    → keep_if (is_due now) (t ∷ rows) ≡ []
    → (is_due now t ≡ false) × (keep_if (is_due now) rows ≡ [])
unfolding keep_if
idle_parts now t rows h = elim (Bool-cases (is_due now t)) [
  | inl due ↦ absurd (cc (rw due at h))
  | inr quiet ↦ (quiet, rw quiet at h)
]

idle_rows-converse :
    (now : ℕ) (rows : List Trigger)
    → reclaim (λ _. true) now rows ≡ rows
    → keep_if (is_due now) rows ≡ []
    → has_due_webhook_triggers now rows ≡ false
unfolding has_due_webhook_triggers keep_if
idle_rows-converse now [] same due = refl
idle_rows-converse now (t ∷ rows) same due =
    let both = sym (reclaim-cons now t rows) ∙ same in
    let (quiet, rest) = idle_parts now t rows due in
    ground
      (arith, idle_row-converse now t (cc both) quiet, idle_rows-converse now rows (cc both) rest)

limit-pos : (limit : ℕ) → 0 < limit_or_default limit
limit-pos limit = ground arith

nothing_taken :
    (safe : Text → Text) (n : ℕ) (rows : List Trigger)
    → 0 < n
    → read_rows safe (take n rows) ≡ some []
    → rows ≡ []
unfolding read_rows
nothing_taken safe zero rows pos h = absurd (omega arith)
nothing_taken safe (suc n) [] pos h = refl
nothing_taken safe (suc n) (t ∷ rows) pos h = elim (Option-cases (read_row safe t)) [
  | inl damaged ↦ absurd (cc (rw (damaged, read_rows) at h))
  | inr (read, fine) ↦ elim (Option-cases (read_rows safe (take n rows))) [
    | inl other ↦ absurd (cc (rw (fine, other, read_rows) at h))
    | inr (rest, others) ↦ absurd (cc (rw (fine, others, read_rows) at h))
  ]
]

-- With nothing to lease the transaction returns the table that its loop was given.
committed-nil :
    (until : ℕ) (tokens : ℕ → Option Text) (i : ℕ) (selected open_rows rows : List Trigger)
    → committed rows (lease_selected until tokens i selected open_rows) ≡ (some [], rows)
    → (selected ≡ []) × (open_rows ≡ rows)
unfolding lease_selected committed
committed-nil until tokens i [] open_rows rows h = (refl, cc)
committed-nil until tokens i (t ∷ selected) open_rows rows h = ground arith

-- A transaction that could not read a row reports an error.
read_all :
    (read : Option (List Trigger)) (loop : List Trigger → Option (List Trigger × List Trigger))
    (rows : List Trigger)
    → committed rows (read >>= loop) ≡ (some [], rows)
    → (triggers : List Trigger) × (read ≡ some triggers)
      × (committed rows (loop triggers) ≡ (some [], rows))
unfolding committed
read_all none loop rows h = absurd (ground (arith, h))
read_all (some triggers) loop rows h = (triggers, refl, h)

module _ (safe : Text → Text) (now limit lease : ℕ) (tokens : ℕ → Option Text)
    (rows : List Trigger) where
  claim_all-idle :
      has_due_webhook_triggers now rows ≡ false
      → claim_webhook_triggers safe now limit lease tokens rows ≡ (some [], rows)
  unfolding claim_webhook_triggers
  claim_all-idle h =
      let (same, none_due) = idle_rows now rows h in
      rw same (rw none_due (nothing_leased (limit_or_default limit)))
    where
      nothing_leased :
          (n : ℕ)
          → committed rows (
              read_rows safe (take n []) >>= (λ triggers.
                lease_selected (now + lease_or_default lease) tokens 0 triggers rows))
            ≡ (some [], rows)
      nothing_leased zero = unfold read_rows lease_selected committed in refl
      nothing_leased (suc n) = unfold read_rows lease_selected committed in refl

  claim_all-busy :
      claim_webhook_triggers safe now limit lease tokens rows ≡ (some [], rows)
      → has_due_webhook_triggers now rows ≡ false
  unfolding claim_webhook_triggers
  claim_all-busy h =
      let open_rows = reclaim (λ _. true) now rows in
      let selected = take (limit_or_default limit) (keep_if (is_due now) open_rows) in
      let (triggers, read, ran) =
        read_all (read_rows safe selected)
          (λ triggers. lease_selected (now + lease_or_default lease) tokens 0 triggers open_rows)
          rows h in
      let (nothing, same) =
        committed-nil (now + lease_or_default lease) tokens 0 triggers open_rows rows ran in
      let none_due =
        nothing_taken safe (limit_or_default limit) (keep_if (is_due now) open_rows)
          (limit-pos limit) (read ∙ ap some nothing) in
      idle_rows-converse now rows same (ap (keep_if (is_due now)) (sym same) ∙ none_due)

  -- The probe says that nothing is due exactly when the claim transaction would return no trigger
  -- and leave the table as it is.
  pub has_due-exact :
      (has_due_webhook_triggers now rows ≡ false)
      ↔ (claim_webhook_triggers safe now limit lease tokens rows ≡ (some [], rows))
  has_due-exact = (claim_all-idle, claim_all-busy)
