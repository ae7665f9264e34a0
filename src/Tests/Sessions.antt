-- ===== src/Tests/Sessions.antt =====
-- Runs of internal/store/sessions.go, and its theorem at a concrete table.
use tail_state.Prelude.{
  List, [], arith, false, inr, nat_eq, none, refl, some, string_eq, true, ℕ, ◌*◌, ◌∷◌, ◌≡◌,
}
use tail_state.Text.{Text, eq_text, str, text_eq, text_ordered}
use tail_state.Store.Sessions.{SessionRow, authenticate_session, create_session}
use tail_state.Store.Sessions.Idle.{Refresh, refresh_all, refresh_all-ended}

abbrev hash_stub : Text → Text
hash_stub token = 35 ∷ token

abbrev minutes : ℕ → ℕ
minutes n = n * 60 * 1000000000

abbrev signed_in : List SessionRow
signed_in =
    record {
      token_hash = hash_stub (str "tok");
      csrf_hash = hash_stub (str "csrf");
      expires_at = minutes 720;
      created_at = 0;
      last_seen_at = some 0;
    }
    ∷ []

create_session_run : create_session hash_stub 0 (str "tok") (str "csrf") [] ≡ signed_in
unfolding create_session
create_session_run = refl

abbrev refresh_at : ℕ → Refresh
refresh_at at = record {
  at = at;
  writes = true;
  token = str "tok";
  csrf = [];
  require_csrf = false;
}

-- Activity moves the end of the session; a refresh does not.
activity_run :
    (authenticate_session hash_stub true (minutes 30) (str "tok") [] false true signed_in).1
    ≡ record {
      token_hash = hash_stub (str "tok");
      csrf_hash = hash_stub (str "csrf");
      expires_at = minutes 720;
      created_at = 0;
      last_seen_at = some (minutes 30);
    }
      ∷ []
unfolding authenticate_session eq_text
activity_run = refl

refresh_run :
    (authenticate_session hash_stub true (minutes 59) (str "tok") [] false false signed_in).1
    ≡ signed_in
unfolding authenticate_session eq_text
refresh_run = refl

refresh_all-ended_example :
    (authenticate_session hash_stub true
      (minutes 60)
      (str "tok")
      (str "csrf")
      true
      true
      (refresh_all hash_stub (refresh_at (minutes 30) ∷ refresh_at (minutes 59) ∷ []) signed_in)).0
    ≡ none
refresh_all-ended_example =
    refresh_all-ended hash_stub (refresh_at (minutes 30) ∷ refresh_at (minutes 59) ∷ []) true
      (minutes 60) (str "tok") (str "csrf") true true signed_in ((λ is. inr (omega arith)), tt)
