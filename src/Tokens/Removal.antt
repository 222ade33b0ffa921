-- ===== src/Tokens/Removal.antt =====
-- Deleting a token, and asking whether there is one.
use e5renew.Prelude.{
  ◌≡◌, refl, sym, ap, ◌∙◌, subst, inl, inr, Bool, not, none, if◌then◌else◌, Bool-cases,
}
use e5renew.Text.{codes, Bytes}
use e5renew.Failure.{Result, ok, err, is_ok, no_rows, wrap}
use e5renew.Database.{Db, Collation, UserToken, behind, find_token, keep}
use e5renew.Database.Statements.{IsHealthy, behind-IsHealthy}
use e5renew.Database.Lookup.{find-keep, IsUnique, IsUnique-keep}
use e5renew.Encryption.{Aead}
use e5renew.Repository
use e5renew.Tokens.{Token, get_user_token, delete_user_token, has_user_token, found_token}
use e5renew.Tokens.Steps.{get_user_token-view, view, delete_user_token_healthy}

module _ (gcm : Aead) (c : Collation) (db : Db) (h : IsHealthy db) (u : Bytes) where
  abbrev after : Db
  after = record (behind db) {
    user_tokens = keep (λ (t : UserToken). not (c.same t.user_id u)) db.user_tokens;
  }

  after-IsHealthy : IsHealthy after
  after-IsHealthy = behind-IsHealthy db h

  delete-eq : (delete_user_token c u db).1 ≡ after
  delete-eq = ap (λ (p : Result (Unit {0}) × Db). p.1) (delete_user_token_healthy c db h u)

  -- When the database answers, DeleteUserToken succeeds; behind it the user has no token, every
  -- other user has the token of before, and users with one row still have one row.
  pub delete_user_token_lem :
      ((delete_user_token c u db).0 ≡ ok tt)
      × ((v : Bytes)
          → (get_user_token gcm c v (delete_user_token c u db).1).0 ≡ (
              if c.same u v
              then err (wrap (codes "failed to get user token") no_rows)
              else (get_user_token gcm c v db).0))
      × (IsUnique c db.user_tokens → IsUnique c (delete_user_token c u db).1.user_tokens)
  delete_user_token_lem = (
    ap (λ (p : Result (Unit {0}) × Db). p.0) (delete_user_token_healthy c db h u),
    λ v.
        ap (λ (d : Db). (get_user_token gcm c v d).0) delete-eq
        ∙ ap (λ (p : Result Token × Db). p.0) (get_user_token-view gcm c after after-IsHealthy v)
        ∙ ap (view gcm) (find-keep c u v db.user_tokens)
        ∙ by_user v,
    λ unique.
        subst (λ (d : Db). IsUnique c d.user_tokens) (sym delete-eq)
          (IsUnique-keep c (λ (t : UserToken). not (c.same t.user_id u)) db.user_tokens unique),
  )
    where
      by_user :
          (v : Bytes)
          → view gcm (if c.same u v then none else find_token c v db.user_tokens) ≡ (
              if c.same u v
              then err (wrap (codes "failed to get user token") no_rows)
              else (get_user_token gcm c v db).0)
      by_user v = elim (Bool-cases (c.same u v)) [
        | inl own ↦ rw own
        | inr other ↦
            rw other (sym (ap (λ (p : Result Token × Db). p.0) (get_user_token-view gcm c db h v)))
      ]

-- HasUserToken never returns an error, in any state: its answer is whether the lookup succeeded,
-- so that a failing database is reported as the absence of a token.
pub has_user_token_lem :
    (c : Collation) (u : Bytes) (db : Db)
    → (has_user_token c u db).0 ≡ ok (is_ok (Repository.get_by_user_id c u db).0)
unfolding has_user_token
has_user_token_lem c u db = by_result (Repository.get_by_user_id c u db).0
  where
    by_result : (r : Result UserToken) → ◌≡◌ {A = Result Bool} (ok (found_token c r)) (ok (is_ok r))
    by_result (ok t) = refl
    by_result (err e) = refl
