-- ===== src/Tokens/Faults.antt =====
-- A lookup that fails for another reason than a missing row: SaveUserToken takes it for a missing
-- row and inserts a second one.
use e5renew.Prelude.{
  ℕ, ◌+◌, ◌≡◌, refl, ap, ◌∙◌, none, some, Option, List, [], ◌∷◌, ◌++◌, inl, inr, true, arith,
  Bool-cases,
}
use e5renew.Text.{Bytes}
use e5renew.Failure.{Error, Result, ok}
use e5renew.Database.{
  Db, Collation, UserToken, row_of, find_token, get_user_token as select_token, create_user_tokens,
}
use e5renew.Database.Lookup.{IsUnique}
use e5renew.Encryption.{Aead}
use e5renew.Repository.{create, get_by_user_id}
use e5renew.Tokens.{Token, Nonces, effective_expiry, save_user_token}
use e5renew.Tokens.Steps.{arg_of, view, view-some}
use e5renew.Rows.{keep}
use e5renew.Tokens.Saved.{read_back}
use e5renew.Tokens.Texts.{CanEncrypt, Stored, stored}

-- A state whose next statement fails with `e`; none of the later ones does.
abbrev pub failing_once : Error → Db → Db
failing_once e db = record db { faults = some e ∷ [] }

abbrev or_row : UserToken → Option UserToken → UserToken
or_row s none = s
or_row s (some t) = t

module _ (c : Collation) where
  -- The rows that a SELECT for the user may return
  unfoldable pub rows_of_user : Bytes → List UserToken → List UserToken
  unfolding keep
  rows_of_user u ts = keep (λ (t : UserToken). c.same t.user_id u) ts

  same_absent :
      (u v : Bytes) (ts : List UserToken)
      → c.same v u ≡ true
      → find_token c v ts ≡ none
      → rows_of_user u ts ≡ []
  unfolding find_token keep rows_of_user
  same_absent u v [] e h = refl
  same_absent u v (s ∷ ts) e h = elim (Bool-cases (c.same s.user_id u)) [
    | inl own ↦ cc (h, c.same_trans s.user_id u v own (c.same_sym v u e))
    | inr other ↦ rw other (same_absent u v ts e (ground (arith, h)))
  ]

  rows_of_one :
      (u : Bytes) (ts : List UserToken) (t : UserToken)
      → IsUnique c ts
      → find_token c u ts ≡ some t
      → rows_of_user u ts ≡ t ∷ []
  unfolding find_token keep rows_of_user
  rows_of_one u [] t unique h = cc
  rows_of_one u (s ∷ ts) t unique h = elim (Bool-cases (c.same s.user_id u)) [
    | inl own ↦ rw own (
        ap (λ rs. s ∷ rs) (same_absent u s.user_id ts own unique.0)
        ∙ ap (λ o. or_row s o ∷ []) (rw own at h))
    | inr other ↦ rw other (rows_of_one u ts t unique.1 (rw other at h))
  ]

  rows_of_user-append :
      (u : Bytes) (ts : List UserToken) (r : UserToken)
      → c.same r.user_id u ≡ true
      → rows_of_user u (ts ++ r ∷ []) ≡ rows_of_user u ts ++ r ∷ []
  unfolding keep rows_of_user
  rows_of_user-append u [] r own = rw own refl
  rows_of_user-append u (s ∷ ts) r own = elim (Bool-cases (c.same s.user_id u)) [
    | inl is ↦ rw is (ap (λ rs. s ∷ rs) (rows_of_user-append u ts r own))
    | inr isnt ↦ rw isnt (rows_of_user-append u ts r own)
  ]

module _ (gcm : Aead) (c : Collation) (db : Db) (e : Error) (now : ℕ) (nonces : Nonces) (u : Bytes)
    (token : Token) (can : CanEncrypt gcm nonces token) where
  texts : Stored gcm nonces token
  texts = stored gcm nonces token can

  abbrev second_row : UserToken
  second_row =
      row_of db.next_token_id
        (arg_of u texts.access texts.refresh (effective_expiry now token) token.token_type)

  -- The state behind the save: two statements, and one more row.
  abbrev doubled : Db
  doubled = record db {
    user_tokens = db.user_tokens ++ second_row ∷ [];
    next_token_id = db.next_token_id + 1;
    faults = [];
  }

  save-eq : save_user_token gcm c now nonces u token (failing_once e db) ≡ (ok tt, doubled)
  unfolding save_user_token create get_by_user_id select_token create_user_tokens
  save-eq = rw (texts.encrypted_access, texts.encrypted_refresh)

  view_second : view gcm (some second_row) ≡ ok (read_back now token)
  view_second =
      view-some gcm second_row token.access_token token.refresh_token texts.decrypted_access
        texts.decrypted_refresh

  -- If the lookup in SaveUserToken fails while the user has one row, and the insertion behind it
  -- works, then SaveUserToken reports success and leaves the user with two rows: the old one as it
  -- was, and one with the new token. So which of the two tokens a SELECT of one row of the user reads
  -- is left to the database.
  pub save_behind_failed_lookup :
      (t : UserToken)
      → IsUnique c db.user_tokens
      → find_token c u db.user_tokens ≡ some t
      → ((save_user_token gcm c now nonces u token (failing_once e db)).0 ≡ ok tt)
        × (r : UserToken) × (rows_of_user c u
              (save_user_token gcm c now nonces u token (failing_once e db)).1.user_tokens
            ≡ t ∷ r ∷ [])
        × (view gcm (some r) ≡ ok (read_back now token))
  save_behind_failed_lookup t unique found = (
    ap (λ (p : Result (Unit {0}) × Db). p.0) save-eq,
    second_row,
    ap (λ (p : Result (Unit {0}) × Db). rows_of_user c u p.1.user_tokens) save-eq
        ∙ rows_of_user-append c u db.user_tokens second_row (c.same_refl u)
        ∙ ap (λ rs. rs ++ second_row ∷ []) (rows_of_one c u db.user_tokens t unique found),
    view_second,
  )
