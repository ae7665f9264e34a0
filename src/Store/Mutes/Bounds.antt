-- ===== src/Store/Mutes/Bounds.antt =====
-- The table of mute rules stays small and holds no rule twice.
use tail_state.Prelude.{
  ==_sym, Bool, Bool-cases, List, Option, [], arith, false, inl, inr, keep_if, leb, length,
  length-append, length-keep_if, ltb, nat_beq, nat_eq, none, not, or_false, refl, some, some_of,
  string_eq, ℕ, ◌++◌, ◌<◌, ◌||◌, ◌∙◌, ◌∷◌, ◌≡◌, ◌≤◌,
}
use tail_state.Text.{Text, text_eq, text_ordered}
use tail_state.Store.Mutes.{
  MuteRule, Mutes, add_mute_rule, delete_mute_rule, is_rule, max_mute_rules, normalize_mute_rule,
}
use tail_state.Store.Table.{count_where}

abbrev NotTwice : List MuteRule → Type 0
NotTwice [] = Unit
NotTwice (r ∷ rules) = (some_of (is_rule r.kind r.value) rules ≡ false) × NotTwice rules

-- At most 200 rules, no two of the same kind and value.
abbrev pub IsWellFormed : Mutes → Type 0
IsWellFormed m = (length m.rules ≤ max_mute_rules) × NotTwice m.rules

count_where-zero :
    (test : MuteRule → Bool) (rules : List MuteRule)
    → ltb 0 (count_where test rules) ≡ false
    → some_of test rules ≡ false
unfolding count_where keep_if some_of
count_where-zero test [] h = refl
count_where-zero test (r ∷ rules) h = elim (Bool-cases (test r)) [
  | inl passes ↦ absurd (ground (arith, h, passes))
  | inr fails ↦ rw fails (count_where-zero test rules (rw fails at h))
]

is_rule_sym : (r q : MuteRule) → is_rule r.kind r.value q ≡ is_rule q.kind q.value r
is_rule_sym r q = ground (arith, ==_sym r.kind q.kind, ==_sym r.value q.value)

some_of-snoc :
    (test : MuteRule → Bool) (rules : List MuteRule) (r : MuteRule)
    → some_of test (rules ++ r ∷ []) ≡ (some_of test rules || test r)
unfolding some_of
some_of-snoc test [] r = ground arith
some_of-snoc test (q ∷ rules) r = ground (arith, some_of-snoc test rules r)

NotTwice-append :
    (rules : List MuteRule) (r : MuteRule)
    → some_of (is_rule r.kind r.value) rules ≡ false
    → NotTwice rules
    → NotTwice (rules ++ r ∷ [])
unfolding some_of
NotTwice-append [] r fresh h = (refl, tt)
NotTwice-append (q ∷ rules) r fresh h =
    let (other, others) = or_false (is_rule r.kind r.value q) _ fresh in
    (
      some_of-snoc (is_rule q.kind q.value) rules r ∙ ground (arith, h.0, is_rule_sym q r, other),
      NotTwice-append rules r others h.1,
    )

some_of-keep_if :
    (test p : MuteRule → Bool) (rules : List MuteRule)
    → some_of test rules ≡ false
    → some_of test (keep_if p rules) ≡ false
unfolding some_of keep_if
some_of-keep_if test p [] h = refl
some_of-keep_if test p (r ∷ rules) h =
    let (other, others) = or_false (test r) (some_of test rules) h in
    elim (Bool-cases (p r)) [
      | inl kept ↦ rw kept (rw other (some_of-keep_if test p rules others))
      | inr gone ↦ rw gone (some_of-keep_if test p rules others)
    ]

NotTwice-keep_if :
    (p : MuteRule → Bool) (rules : List MuteRule) → NotTwice rules → NotTwice (keep_if p rules)
unfolding keep_if
NotTwice-keep_if p [] h = tt
NotTwice-keep_if p (r ∷ rules) h = elim (Bool-cases (p r)) [
  | inl kept ↦
      rw kept (some_of-keep_if (is_rule r.kind r.value) p rules h.0, NotTwice-keep_if p rules h.1)
  | inr gone ↦ rw gone (NotTwice-keep_if p rules h.1)
]

small : (rules : List MuteRule) → leb max_mute_rules (length rules) ≡ false → length rules < 200
small rules h = ground arith

add_mute_rule-cases :
    (now : ℕ) (m : Mutes) (normal : Option (Text × Text)) (kind value : Text)
    → normalize_mute_rule kind value ≡ normal
    → IsWellFormed m
    → IsWellFormed (add_mute_rule now kind value m).1
unfolding add_mute_rule
add_mute_rule-cases now m none kind value is h = rw (add_mute_rule, is) h
add_mute_rule-cases now m (some (k, v)) kind value is h =
    elim (Bool-cases (ltb 0 (count_where (is_rule k v) m.rules))) [
      | inl there ↦ rw (add_mute_rule, is, there) h
      | inr fresh ↦ elim (Bool-cases (leb max_mute_rules (length m.rules))) [
        | inl full ↦ rw (add_mute_rule, is, fresh, full) h
        | inr room ↦
            rw (add_mute_rule, is, fresh, room)
              (
                omega (arith, small m.rules room, length-append m.rules (row ∷ [])),
                NotTwice-append m.rules row (count_where-zero (is_rule k v) m.rules fresh) h.1,
              )
      ]
    ]
  where
    row : MuteRule
    row = record { id = m.next_id; kind = k; value = v; created_at = now }

-- Adding and deleting rules keeps the table well-formed, whatever is asked for.
pub mutes-IsWellFormed :
    (now id : ℕ) (kind value : Text) (m : Mutes)
    → IsWellFormed m
    → IsWellFormed (add_mute_rule now kind value m).1 × IsWellFormed (delete_mute_rule id m).1
unfolding delete_mute_rule
mutes-IsWellFormed now id kind value m h = (
  add_mute_rule-cases now m (normalize_mute_rule kind value) kind value refl h,
  (
    omega (arith, length-keep_if (λ r. not (nat_beq r.id id)) m.rules, h.0),
    NotTwice-keep_if (λ r. not (nat_beq r.id id)) m.rules h.1,
  ),
)
