-- ===== src/Store/Snapshots/Absent.antt =====
-- internal/store/snapshots.go: the stored resources that a response omits, through one poll.
use mathlib.Core.List.{append-nil}
use tail_state.Prelude.{
  ==_refl, Bool, Bool-cases, Every, Every-mono, List, Option, Option-cases, [], ap, arith, contains,
  false, if◌then◌else◌, inl, inr, keep_if, keep_if-append, nat_eq, not, refl, string_eq, true, ℕ,
  ◌&&◌, ◌++◌, ◌==◌, ◌||◌, ◌∙◌, ◌∷◌, ◌≡◌,
}
use tail_state.Text.{Text, text_eq, text_ordered}
use tail_state.Store.Table.{find_row, update_where}
use tail_state.Store.Snapshots.{
  Apply, Limits, Resource, Snapshot, StoredValue, bounded_value, is_row, of_collector,
}
use tail_state.Store.Snapshots.Removal.{absent_rows, ids_of, is_absent}
use tail_state.Store.Snapshots.Upsert.{
  add_events, changed_events, is_unchanged, note_truncation, previous_of, rewrite_snapshot, row_of,
  upsert_all, upsert_resource,
}
use tail_state.Model.{Json}
use tail_state.Model.Normalize.Walk.{canonical_for}

module _ {ℓ} {A : Type ℓ} where
  -- An UPDATE between rows that a query does not read leaves what it reads.
  keep_if-update_where :
      (p test : A → Bool) (set : A → A) (rows : List A)
      → ((r : A) → test r ≡ true → (p r ≡ false) × (p (set r) ≡ false))
      → keep_if p (update_where test set rows) ≡ keep_if p rows
  unfolding keep_if update_where
  keep_if-update_where p test set [] h = refl
  keep_if-update_where p test set (r ∷ rows) h = elim (Bool-cases (test r)) [
    | inl passes ↦
        rw (passes, (h r passes).0, (h r passes).1) (keep_if-update_where p test set rows h)
    | inr fails ↦ rw fails (kept (p r) (keep_if-update_where p test set rows h))
  ]
    where
      kept :
          (b : Bool) {xs ys : List A}
          → xs ≡ ys
          → (if b then r ∷ xs else xs) ≡ (if b then r ∷ ys else ys)
      kept true e = ap (λ zs. r ∷ zs) e
      kept false e = e

module _ (generation : ℕ) (collector : Text) (seen : List Text) where
  -- The row of a resource that the response holds is not an omitted one.
  absent-seen :
      (row : Snapshot)
      → contains seen row.resource_id ≡ true
      → is_absent generation collector seen row ≡ false
  unfolding is_absent
  absent-seen row h = rw h (never (of_collector generation collector row))
    where
      never : (b : Bool) → (b && false) ≡ false
      never b = ground arith

  is_row-seen :
      (id : Text) (row : Snapshot)
      → contains seen id ≡ true
      → is_row generation collector id row ≡ true
      → contains seen row.resource_id ≡ true
  is_row-seen id row h k =
      let e : row.resource_id ≡ id =
        (text_eq.same_iff row.resource_id id).0
          (right (of_collector generation collector row) _ k) in
      rw e h
    where
      right : (a b : Bool) → (a && b) ≡ true → b ≡ true
      right a b e = ground arith

  absent_rows-rewrite :
      (now : ℕ) (resource : Resource) (value : StoredValue) (hash : Text) (a : Apply)
      → contains seen resource.id ≡ true
      → absent_rows generation collector seen
          (rewrite_snapshot generation now collector resource value hash a).snapshots
        ≡ absent_rows generation collector seen a.snapshots
  unfolding absent_rows rewrite_snapshot
  absent_rows-rewrite now resource value hash a h =
      keep_if-update_where (is_absent generation collector seen)
        (is_row generation collector resource.id)
        (λ row. row_of generation now collector resource value hash) a.snapshots
        (λ r k. (
          absent-seen r (is_row-seen resource.id r h k),
          absent-seen (row_of generation now collector resource value hash) h,
        ))

  absent_rows-insert :
      (rows : List Snapshot) (row : Snapshot)
      → contains seen row.resource_id ≡ true
      → absent_rows generation collector seen (rows ++ (row ∷ []))
        ≡ absent_rows generation collector seen rows
  unfolding absent_rows keep_if
  absent_rows-insert rows row h =
      keep_if-append (is_absent generation collector seen) rows (row ∷ [])
      ∙ rw (absent-seen row h) (append-nil (keep_if (is_absent generation collector seen) rows))

  module _ (decode : Text → Option Json) (digest : Text → Text) where
    -- The omitted rows and the states are those of `a`.
    abbrev Keeps : Apply → Apply → Type 0
    Keeps a b =
        (absent_rows generation collector seen b.snapshots
          ≡ absent_rows generation collector seen a.snapshots)
        × (b.states ≡ a.states)

    either : (a x y : Apply) (b : Bool) → Keeps a x → Keeps a y → Keeps a (if b then x else y)
    either a x y true h k = h
    either a x y false h k = k

    rewrite-Keeps :
        (now : ℕ) (resource : Resource) (value : StoredValue) (hash : Text) (a : Apply)
        → contains seen resource.id ≡ true
        → Keeps a (rewrite_snapshot generation now collector resource value hash a)
    unfolding rewrite_snapshot
    rewrite-Keeps now resource value hash a h =
        (absent_rows-rewrite now resource value hash a h, refl)

    upsert_resource-Keeps :
        (now : ℕ) (limits : Limits) (baselined silent absorb : Bool) (resource : Resource)
        (canonical : Text × Text) (a : Apply)
        → contains seen resource.id ≡ true
        → Keeps a (
            upsert_resource decode digest generation now limits collector baselined silent absorb
              resource canonical a)
    unfolding upsert_resource note_truncation
    upsert_resource-Keeps now limits baselined silent absorb resource canonical a h =
        elim (Option-cases (find_row (is_row generation collector resource.id) a.snapshots)) [
          | inl fresh ↦ rw (fresh, upsert_resource) (absent_rows-insert a.snapshots _ h, refl)
          | inr (row, found) ↦
              let value =
                bounded_value canonical.0 canonical.1 limits.snapshot_bytes limits.reject_bytes in
              let noted =
                note_truncation collector resource.id value limits.snapshot_bytes true a in
              let old = previous_of decode digest collector canonical.1 row in
              let events =
                changed_events decode digest collector resource canonical.0 canonical.1 baselined
                  old in
              rw (found, upsert_resource)
                (either a
                  (rewrite_snapshot generation now collector resource value canonical.1
                    (add_events events noted))
                  (if is_unchanged row resource value canonical.1
                    then noted
                    else rewrite_snapshot generation now collector resource value canonical.1 noted)
                  (not (old.hash == canonical.1))
                  (rewrite-Keeps now resource value canonical.1 (add_events events noted) h)
                  (either a noted
                    (rewrite_snapshot generation now collector resource value canonical.1 noted)
                    (is_unchanged row resource value canonical.1) (refl, refl)
                    (rewrite-Keeps now resource value canonical.1 noted h)))
        ]

    pub upsert_all-Keeps :
        (now : ℕ) (limits : Limits) (baselined silent absorb : Bool) (resources : List Resource)
        (a : Apply)
        → Every (λ r. contains seen r.id ≡ true) resources
        → Keeps a (
            upsert_all decode digest generation now limits collector baselined silent absorb
              resources a)
    unfolding upsert_all
    upsert_all-Keeps now limits baselined silent absorb [] a h = (refl, refl)
    upsert_all-Keeps now limits baselined silent absorb (resource ∷ resources) a h =
        let canonical = canonical_for digest collector resource.content in
        let (rows, states) =
          upsert_resource-Keeps now limits baselined silent absorb resource canonical a h.0 in
        let (rows', states') =
          upsert_all-Keeps now limits baselined silent absorb resources
            (upsert_resource decode digest generation now limits collector baselined silent absorb
              resource canonical a)
            h.1 in
        (rows' ∙ rows, states' ∙ states)

-- A response holds the ids that are seen in it.
pub contains-ids_of :
    (resources : List Resource) → Every (λ r. contains (ids_of resources) r.id ≡ true) resources
unfolding contains
contains-ids_of [] = tt
contains-ids_of (r ∷ resources) = (
  rw (==_refl r.id) refl,
  Every-mono _ _ resources (λ q h. later (r.id == q.id) h) (contains-ids_of resources),
)
  where
    later : (b : Bool) {c : Bool} → c ≡ true → (b || c) ≡ true
    later true h = refl
    later false h = h
