-- ===== src/Store/Table.antt =====
-- The SQL statements that the transactions of internal/store run, over a table as a list of rows in
-- the order of their ids.
use tail_state.Prelude.{
  Bool, Bool-cases, List, Option, [], ap, false, if◌then◌else◌, inl, inr, keep_if, length, nat_eq,
  none, or_false, refl, some, some_of, string_eq, true, ℕ, ◌∷◌, ◌≡◌,
}
use tail_state.Text.{text_eq, text_ordered}

module _ {ℓ} {A : Type ℓ} where
  -- `UPDATE … SET … WHERE …`
  unfoldable pub update_where : (A → Bool) → (A → A) → List A → List A
  update_where test set [] = []
  update_where test set (t ∷ rows) = (if test t then set t else t) ∷ update_where test set rows

  unfoldable pub find_row : (A → Bool) → List A → Option A
  find_row test [] = none
  find_row test (t ∷ rows) = let rest = find_row test rows in if test t then some t else rest

  -- The rows that an UPDATE affects.
  unfoldable pub count_where : (A → Bool) → List A → ℕ
  unfolding keep_if
  count_where test rows = length (keep_if test rows)

  -- An UPDATE whose test no row passes affects no row and changes none.
  pub update_where-none :
      (test : A → Bool) (set : A → A) (rows : List A)
      → some_of test rows ≡ false
      → (count_where test rows ≡ 0) × (update_where test set rows ≡ rows)
  unfolding count_where update_where keep_if some_of
  update_where-none test set [] h = (refl, refl)
  update_where-none test set (t ∷ rows) h =
      let (fails, others) = or_false (test t) (some_of test rows) h in
      let (none_counted, same) = update_where-none test set rows others in
      (rw fails none_counted, rw fails (ap (λ r. t ∷ r) same))

  -- After an UPDATE whose new rows fail its test, no row passes it.
  pub some_of-update_where :
      (test test' : A → Bool) (set : A → A) (rows : List A)
      → ((t : A) → test t ≡ true → test' (set t) ≡ false)
      → ((t : A) → test t ≡ false → test' t ≡ false)
      → some_of test' (update_where test set rows) ≡ false
  unfolding some_of update_where
  some_of-update_where test test' set [] moved kept = refl
  some_of-update_where test test' set (t ∷ rows) moved kept = elim (Bool-cases (test t)) [
    | inl passes ↦
        rw passes (rw (moved t passes) (some_of-update_where test test' set rows moved kept))
    | inr fails ↦ rw fails (rw (kept t fails) (some_of-update_where test test' set rows moved kept))
  ]

  -- If each row fails a test once it has been through an UPDATE, none passes it afterwards.
  pub some_of-update_where_fails :
      (before test after : A → Bool) (set : A → A) (rows : List A)
      → ((t : A) → before t ≡ false → after (if test t then set t else t) ≡ false)
      → some_of before rows ≡ false
      → some_of after (update_where test set rows) ≡ false
  unfolding some_of update_where
  some_of-update_where_fails before test after set [] kept h = refl
  some_of-update_where_fails before test after set (t ∷ rows) kept h =
      let (fails, others) = or_false (before t) (some_of before rows) h in
      rw (kept t fails) (some_of-update_where_fails before test after set rows kept others)
