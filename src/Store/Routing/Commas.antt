-- ===== src/Store/Routing/Commas.antt =====
-- Lists of names that are joined by commas.
use tail_state.Prelude.{
  Bool, Every, List, [], ap, ap₂, arith, contains, contains-append, false, nat_beq, nat_eq, not,
  or_false, refl, string_eq, sym, true, ℕ, ◌++◌, ◌∙◌, ◌∷◌, ◌≡◌,
}
use tail_state.Text.{Text, is_space, text_eq, text_ordered}
use tail_state.Store.Routing.{join_comma}

-- A text without the byte that separates it from the next.
abbrev pub Without : ℕ → Text → Type 0
Without sep s = contains s sep ≡ false

-- Two texts that are cut at the first separator are cut alike.
pub cut_unique :
    (sep : ℕ) (a b x y : Text)
    → Without sep a
    → Without sep b
    → a ++ sep ∷ x ≡ b ++ sep ∷ y
    → (a ≡ b) × (x ≡ y)
unfolding contains
cut_unique sep [] [] x y ha hb h = (refl, cc h)
cut_unique sep [] (c ∷ b) x y ha hb h = absurd (ground (arith, hb, h))
cut_unique sep (c ∷ a) [] x y ha hb h = absurd (ground (arith, ha, h))
cut_unique sep (c ∷ a) (d ∷ b) x y ha hb h =
    let heads : c ≡ d = cc h in
    let tails : a ++ sep ∷ x ≡ b ++ sep ∷ y = cc h in
    let (_, rest) = or_false (nat_beq c sep) (contains a sep) ha in
    let (_, rest') = or_false (nat_beq d sep) (contains b sep) hb in
    let (same, same') = cut_unique sep a b x y rest rest' tails in (ap₂ ◌∷◌ heads same, same')

cut_never : (sep : ℕ) (a b y : Text) → Without sep a → a ≡ b ++ sep ∷ y → ⊥
unfolding contains
cut_never sep [] [] y ha h = cc h
cut_never sep [] (d ∷ b) y ha h = cc h
cut_never sep (c ∷ a) [] y ha h = ground (arith, ha, h)
cut_never sep (c ∷ a) (d ∷ b) y ha h =
    let (_, rest) = or_false (nat_beq c sep) (contains a sep) ha in cut_never sep a b y rest (cc h)

-- A text that does not begin with a space.
abbrev pub is_word : Text → Bool
is_word [] = false
is_word (c ∷ s) = not (is_space c)

-- A name in a list of a rule set.
abbrev pub IsName : Text → Type 0
IsName s = (is_word s ≡ true) × Without b',' s × Without b'|' s

pub join_comma_unique :
    (xs ys : List Text)
    → Every IsName xs
    → Every IsName ys
    → join_comma xs ≡ join_comma ys
    → xs ≡ ys
unfolding join_comma
join_comma_unique [] [] hx hy h = refl
join_comma_unique [] (y ∷ []) hx hy h = absurd (ground (arith, h, hy.0.0))
join_comma_unique [] ([] ∷ z ∷ ys) hx hy h = absurd (cc h)
join_comma_unique [] ((c ∷ y) ∷ z ∷ ys) hx hy h = absurd (cc h)
join_comma_unique (x ∷ []) [] hx hy h = absurd (ground (arith, h, hx.0.0))
join_comma_unique ([] ∷ w ∷ xs) [] hx hy h = absurd (cc h)
join_comma_unique ((c ∷ x) ∷ w ∷ xs) [] hx hy h = absurd (cc h)
join_comma_unique (x ∷ []) (y ∷ []) hx hy h = ap (λ s. s ∷ []) h
join_comma_unique (x ∷ []) (y ∷ z ∷ ys) hx hy h =
    absurd (cut_never b',' x y (join_comma (z ∷ ys)) hx.0.1 h)
join_comma_unique (x ∷ w ∷ xs) (y ∷ []) hx hy h =
    absurd (cut_never b',' y x (join_comma (w ∷ xs)) hy.0.1 (sym h))
join_comma_unique (x ∷ w ∷ xs) (y ∷ z ∷ ys) hx hy h =
    let (same, rest) =
      cut_unique b',' x y (join_comma (w ∷ xs)) (join_comma (z ∷ ys)) hx.0.1 hy.0.1 h in
    ap₂ ◌∷◌ same (join_comma_unique (w ∷ xs) (z ∷ ys) hx.1 hy.1 rest)

pub join_comma-Without : (xs : List Text) → Every IsName xs → Without b'|' (join_comma xs)
unfolding join_comma contains
join_comma-Without [] h = refl
join_comma-Without (x ∷ []) h = h.0.2
join_comma-Without (x ∷ w ∷ xs) h =
    contains-append x (b',' ∷ join_comma (w ∷ xs)) b'|'
    ∙ ground (arith, h.0.2, join_comma-Without (w ∷ xs) h.1)
