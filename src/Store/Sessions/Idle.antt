-- ===== src/Store/Sessions/Idle.antt =====
-- internal/store/sessions.go: a session that nobody uses ends, whatever page refreshes itself.
use mathlib.Core.Path.{subst}
use tail_state.Prelude.{
  Bool, Bool-cases, Every, List, Option-cases, [], arith, false, inl, inr, is_empty, keep_if, ltb,
  nat_eq, none, not, refl, some, string_eq, true, ℕ, ◌&&◌, ◌==◌, ◌∷◌, ◌≡◌, ◌≤◌, ◌⊎◌,
}
use tail_state.Text.{Text, text_eq, text_ordered}
use tail_state.Store.Table.{find_row}
use tail_state.Store.Sessions.{SessionRow, authenticate_session, has_token, session_info}

-- A request, with the time at which it comes and whether its write was made.
pub record Refresh : Type 0 where
  pub at : ℕ
  pub writes : Bool
  pub token : Text
  pub csrf : Text
  pub require_csrf : Bool

module _ (hash : Text → Text) where
  -- Requests that are no user activity, one after the other.
  unfoldable pub refresh_all : List Refresh → List SessionRow → List SessionRow
  unfolding authenticate_session
  refresh_all [] rows = rows
  refresh_all (r ∷ requests) rows =
      refresh_all requests
        (authenticate_session hash r.writes r.at r.token r.csrf r.require_csrf false rows).1

  -- A row that is not the token's, or is past its lifetime or idle.
  abbrev pub HasEnded : Text → ℕ → SessionRow → Type 0
  HasEnded token now row =
      has_token (hash token) row ≡ true
      → (row.expires_at ≤ now) ⊎ ((session_info row).idle_until ≤ now)

  keep_if-HasEnded :
      (test : SessionRow → Bool) (token : Text) (now : ℕ) (rows : List SessionRow)
      → Every (HasEnded token now) rows
      → Every (HasEnded token now) (keep_if test rows)
  unfolding keep_if
  keep_if-HasEnded test token now [] h = tt
  keep_if-HasEnded test token now (row ∷ rows) h = elim (Bool-cases (test row)) [
    | inl kept ↦ rw kept (h.0, keep_if-HasEnded test token now rows h.1)
    | inr dropped ↦ rw dropped (keep_if-HasEnded test token now rows h.1)
  ]

  -- A refresh deletes rows at most.
  refresh-HasEnded :
      (r : Refresh) (token : Text) (now : ℕ) (rows : List SessionRow)
      → Every (HasEnded token now) rows
      → Every
          (HasEnded token now)
          (authenticate_session hash r.writes r.at r.token r.csrf r.require_csrf false rows).1
  unfolding authenticate_session
  refresh-HasEnded r token now rows h = elim (Bool-cases (is_empty r.token)) [
    | inl blank ↦ rw blank h
    | inr given ↦ elim (Option-cases (find_row (has_token (hash r.token)) rows)) [
      | inl missing ↦ rw (given, missing) h
      | inr (row, there) ↦
          rw (given, there)
            (elim (Bool-cases (ltb r.at (session_info row).expires)) [
              | inr late ↦ rw late h
              | inl alive ↦ elim (Bool-cases (ltb r.at (session_info row).idle_until)) [
                | inr idle ↦
                    rw (alive, idle)
                      (elim (Bool-cases r.writes) [
                        | inl made ↦ rw made (keep_if-HasEnded _ token now rows h)
                        | inr failed ↦ rw failed h
                      ])
                | inl busy ↦
                    rw (alive, busy)
                      (elim (Bool-cases (r.require_csrf && not (hash r.csrf == row.csrf_hash))) [
                        | inl forged ↦ rw forged h
                        | inr fine ↦ rw fine h
                      ])
              ]
            ])
    ]
  ]

  refresh_all-HasEnded :
      (requests : List Refresh) (token : Text) (now : ℕ) (rows : List SessionRow)
      → Every (HasEnded token now) rows
      → Every (HasEnded token now) (refresh_all requests rows)
  unfolding refresh_all
  refresh_all-HasEnded [] token now rows h = h
  refresh_all-HasEnded (r ∷ requests) token now rows h =
      refresh_all-HasEnded requests token now _ (refresh-HasEnded r token now rows h)

  find_row-HasEnded :
      (token : Text) (now : ℕ) (rows : List SessionRow) (row : SessionRow)
      → Every (HasEnded token now) rows
      → find_row (has_token (hash token)) rows ≡ some row
      → (row.expires_at ≤ now) ⊎ ((session_info row).idle_until ≤ now)
  unfolding find_row
  find_row-HasEnded token now [] row h e = absurd (cc e)
  find_row-HasEnded token now (r ∷ rows) row h e = elim (Bool-cases (has_token (hash token) r)) [
    | inl is ↦
        let same : r ≡ row = cc (rw is at e) in
        subst (λ x. (x.expires_at ≤ now) ⊎ ((session_info x).idle_until ≤ now)) same (h.0 is)
    | inr other ↦ find_row-HasEnded token now rows row h.1 (rw other at e)
  ]

  -- The row of an ended session does not authenticate.
  authenticate_session-ended :
      (writes : Bool) (now : ℕ) (token csrf : Text) (require_csrf activity : Bool)
      (rows : List SessionRow)
      → Every (HasEnded token now) rows
      → (authenticate_session hash writes now token csrf require_csrf activity rows).0 ≡ none
  unfolding authenticate_session
  authenticate_session-ended writes now token csrf require_csrf activity rows h =
      elim (Bool-cases (is_empty token)) [
        | inl blank ↦ rw blank refl
        | inr given ↦ elim (Option-cases (find_row (has_token (hash token)) rows)) [
          | inl missing ↦ rw (given, missing) refl
          | inr (row, there) ↦
              rw (given, there)
                (elim (find_row-HasEnded token now rows row h there) [
                  | inl late ↦
                      let gone : ltb now row.expires_at ≡ false = ground (arith, late) in
                      rw gone refl
                  | inr idle ↦ elim (Bool-cases (ltb now (session_info row).expires)) [
                    | inr late ↦ rw late refl
                    | inl alive ↦
                        let gone : ltb now (session_info row).idle_until ≡ false =
                          ground (arith, idle) in
                        rw (alive, gone) refl
                  ]
                ])
        ]
      ]

  -- A session that is past its lifetime or its idle timeout at some time is refused then, whatever
  -- requests that are no user activity came before: none of them, at any time and under any token,
  -- keeps it alive.
  pub refresh_all-ended :
      (requests : List Refresh) (writes : Bool) (now : ℕ) (token csrf : Text)
      (require_csrf activity : Bool) (rows : List SessionRow)
      → Every (HasEnded token now) rows
      → (authenticate_session hash writes now token csrf require_csrf activity
          (refresh_all requests rows)).0
        ≡ none
  refresh_all-ended requests writes now token csrf require_csrf activity rows h =
      authenticate_session-ended writes now token csrf require_csrf activity
        (refresh_all requests rows) (refresh_all-HasEnded requests token now rows h)
