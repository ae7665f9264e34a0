-- ===== src/Store/Triggers/Rows.antt =====
-- The table of triggers as a map from ids to rows.
use tail_state.Prelude.{
  Bool, Bool-cases, List, Option, [], arith, false, if◌then◌else◌, inl, inr, nat_beq, nat_eq, none,
  not, refl, some, string_eq, ℕ, ◌&&◌, ◌∷◌, ◌≡◌,
}
use tail_state.Store.Triggers.{Trigger, has_id}
use tail_state.Text.{text_eq, text_ordered}
use tail_state.Store.Table.{count_where, find_row, update_where}

abbrev pub map_row : (Trigger → Trigger) → Option Trigger → Option Trigger
map_row f none = none
map_row f (some t) = some (f t)

-- The row that `WHERE id=?` selects.
abbrev pub row_of : ℕ → List Trigger → Option Trigger
row_of id rows = find_row (has_id id) rows

abbrev pub apply_if : (Trigger → Bool) → (Trigger → Trigger) → Trigger → Trigger
apply_if test set t = if test t then set t else t

abbrev pub KeepsId : (Trigger → Trigger) → Type 0
KeepsId set = (t : Trigger) → (set t).id ≡ t.id

-- An UPDATE that keeps ids acts on the row of each id.
pub row_of-update_where :
    (test : Trigger → Bool) (set : Trigger → Trigger) (id : ℕ) (rows : List Trigger)
    → KeepsId set
    → row_of id (update_where test set rows) ≡ map_row (apply_if test set) (row_of id rows)
unfolding find_row update_where
row_of-update_where test set id [] keeps = refl
row_of-update_where test set id (t ∷ rows) keeps =
    ground (arith, keeps t, row_of-update_where test set id rows keeps)

-- An UPDATE by id acts on that row alone.
pub row_of-update_id :
    (p : Trigger → Bool) (set : Trigger → Trigger) (id j : ℕ) (rows : List Trigger)
    → KeepsId set
    → row_of j (update_where (λ t. has_id id t && p t) set rows)
      ≡ (if nat_beq j id then map_row (apply_if p set) (row_of j rows) else row_of j rows)
unfolding find_row update_where
row_of-update_id p set id j [] keeps = ground arith
row_of-update_id p set id j (t ∷ rows) keeps =
    ground (arith, keeps t, row_of-update_id p set id j rows keeps)

abbrev pub AllRows : (Trigger → Type 0) → List Trigger → Type 0
AllRows P [] = Unit
AllRows P (t ∷ rows) = P t × AllRows P rows

-- The primary key: no id occurs twice.
abbrev pub DistinctIds : List Trigger → Type 0
DistinctIds [] = Unit
DistinctIds (t ∷ rows) = AllRows (λ r. has_id t.id r ≡ false) rows × DistinctIds rows

AllRows-update_where :
    {P : Trigger → Type 0} (test : Trigger → Bool) (set : Trigger → Trigger) (rows : List Trigger)
    → ((t : Trigger) → P t → P (apply_if test set t))
    → AllRows P rows
    → AllRows P (update_where test set rows)
unfolding update_where
AllRows-update_where test set [] keep h = tt
AllRows-update_where test set (t ∷ rows) keep h =
    (keep t h.0, AllRows-update_where test set rows keep h.1)

id-apply_if :
    (test : Trigger → Bool) (set : Trigger → Trigger) (t : Trigger)
    → KeepsId set
    → (apply_if test set t).id ≡ t.id
id-apply_if test set t keeps = ground (arith, keeps t)

pub update_where-DistinctIds :
    (test : Trigger → Bool) (set : Trigger → Trigger) (rows : List Trigger)
    → KeepsId set
    → DistinctIds rows
    → DistinctIds (update_where test set rows)
unfolding update_where
update_where-DistinctIds test set [] keeps h = tt
update_where-DistinctIds test set (t ∷ rows) keeps h = (
  AllRows-update_where {P = λ r. has_id (apply_if test set t).id r ≡ false} test set rows
      (λ r fresh. ground (arith, keeps r, fresh)) (rw (id-apply_if test set t keeps) h.0),
  update_where-DistinctIds test set rows keeps h.1,
)

abbrev pub row_passes : (Trigger → Bool) → Option Trigger → Bool
row_passes p none = false
row_passes p (some t) = p t

count_absent :
    (p : Trigger → Bool) (id : ℕ) (rows : List Trigger)
    → AllRows (λ r. has_id id r ≡ false) rows
    → count_where (λ t. has_id id t && p t) rows ≡ 0
unfolding count_where
count_absent p id [] h = refl
count_absent p id (t ∷ rows) h = ground (arith, h.0, count_absent p id rows h.1)

-- `RowsAffected` of an UPDATE by id tells whether the row passed its test.
pub count_where-row_of :
    (p : Trigger → Bool) (id : ℕ) (rows : List Trigger)
    → DistinctIds rows
    → nat_beq (count_where (λ t. has_id id t && p t) rows) 0 ≡ not (row_passes p (row_of id rows))
unfolding count_where find_row
count_where-row_of p id [] h = refl
count_where-row_of p id (t ∷ rows) h = elim (Bool-cases (has_id id t)) [
  | inl is ↦
      let same : t.id ≡ id = ground arith in
      ground (arith, is, count_absent p id rows (rw same at h.0))
  | inr other ↦ ground (arith, other, count_where-row_of p id rows h.1)
]

-- Two changes of the one row with an id that agree on it.
pub row_of-agree :
    (f g : Trigger → Trigger) (j k : ℕ) (t : Trigger) (rows : List Trigger)
    → row_of k rows ≡ some t
    → f t ≡ g t
    → (if nat_beq j k then map_row f (row_of j rows) else row_of j rows)
      ≡ (if nat_beq j k then map_row g (row_of j rows) else row_of j rows)
row_of-agree f g j k t rows there same = ground (arith, there, same)

pub row_of-unchanged :
    (g : Trigger → Trigger) (j k : ℕ) (t : Trigger) (rows : List Trigger)
    → row_of k rows ≡ some t
    → t ≡ g t
    → row_of j rows ≡ (if nat_beq j k then map_row g (row_of j rows) else row_of j rows)
row_of-unchanged g j k t rows there same = ground (arith, there, same)
