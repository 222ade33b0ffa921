-- ===== src/Database/Statements.antt =====
-- What each statement does when the database answers, and how a lookup sees the changes.
use e5renew.Prelude.{◌+◌, ◌≡◌, refl, not, Option, none, some, List, [], ◌∷◌, ◌++◌, map, All}
use mathlib.Core.List.{tail}
use e5renew.Text.{Bytes}
use e5renew.Failure.{Error, ok}
use e5renew.Database.{
  Db, Collation, UserToken, CreateUserTokensParams, row_of, behind, outcome, keep, find_token,
  or_no_rows, set_token, get_user_token, create_user_tokens, update_user_tokens, delete_user_tokens,
}

-- No coming statement fails.
abbrev pub IsHealthy : Db → Type 0
IsHealthy db = All (λ (f : Option Error). f ≡ none) db.faults

pub behind-IsHealthy : (db : Db) → IsHealthy db → IsHealthy (behind db)
behind-IsHealthy db h = tail-All db.faults h
  where
    tail-All :
        (fs : List (Option Error))
        → All (λ (f : Option Error). f ≡ none) fs
        → All (λ (f : Option Error). f ≡ none) (tail fs)
    tail-All [] h = tt
    tail-All (f ∷ fs) h = h.1

pub outcome_healthy :
    (fs : List (Option Error)) → All (λ (f : Option Error). f ≡ none) fs → outcome fs ≡ ok tt
unfolding outcome
outcome_healthy [] h = refl
outcome_healthy (none ∷ fs) h = refl
outcome_healthy (some e ∷ fs) h = cc (h.0)

module _ (c : Collation) (db : Db) (h : IsHealthy db) where
  pub get_user_token_healthy :
      (u : Bytes) → get_user_token c u db ≡ (or_no_rows (find_token c u db.user_tokens), behind db)
  unfolding get_user_token
  get_user_token_healthy u = rw (outcome_healthy db.faults h)

  pub create_user_tokens_healthy :
      (arg : CreateUserTokensParams)
      → create_user_tokens c arg db ≡ (
        ok tt,
        record (behind db) {
          user_tokens = db.user_tokens ++ row_of db.next_token_id arg ∷ [];
          next_token_id = db.next_token_id + 1;
        },
      )
  unfolding create_user_tokens
  create_user_tokens_healthy arg = rw (outcome_healthy db.faults h)

  pub update_user_tokens_healthy :
      (arg : CreateUserTokensParams)
      → update_user_tokens c arg db
        ≡ (ok tt, record (behind db) { user_tokens = map (set_token c arg) db.user_tokens })
  unfolding update_user_tokens
  update_user_tokens_healthy arg = rw (outcome_healthy db.faults h)

  pub delete_user_tokens_healthy :
      (u : Bytes)
      → delete_user_tokens c u db ≡ (
        ok tt,
        record (behind db) {
          user_tokens = keep (λ (t : UserToken). not (c.same t.user_id u)) db.user_tokens;
        },
      )
  unfolding delete_user_tokens
  delete_user_tokens_healthy u = rw (outcome_healthy db.faults h)
