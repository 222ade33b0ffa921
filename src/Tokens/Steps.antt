-- ===== src/Tokens/Steps.antt =====
-- What the calls of the token service do when the database answers and the texts encrypt.
use e5renew.Prelude.{
  ℕ, ◌+◌, ◌≡◌, inl, inr, Bool, true, false, not, Option, none, some, List, [], ◌∷◌, ◌++◌, map,
  Option-cases,
}
use e5renew.Prelude.Int.{pos}
use e5renew.Text.{codes, Bytes}
use e5renew.Failure.{Result, ok, err, no_rows, wrap, Result-cases, Result-cases}
use e5renew.Database.{
  Db, Collation, UserToken, CreateUserTokensParams, behind, row_of, find_token, set_token,
  or_no_rows, keep,
}
use e5renew.Database.Statements.{
  IsHealthy, behind-IsHealthy, get_user_token_healthy, create_user_tokens_healthy,
  update_user_tokens_healthy, delete_user_tokens_healthy,
}
use e5renew.Repository.{create, update, get_by_user_id, delete_by_user_id}
use e5renew.Encryption.{Aead, encrypt, decrypt}
use e5renew.Tokens.{
  Token, Nonces, effective_expiry, save_user_token, get_user_token, update_user_token,
  delete_user_token, has_user_token,
}

-- The row of a user after a save: the old one with new contents, or a new one.
abbrev pub upsert : Collation → ℕ → CreateUserTokensParams → List UserToken → List UserToken
upsert c id arg ts = elim (find_token c arg.user_id ts) [
  | none ↦ ts ++ row_of id arg ∷ []
  | some t ↦ map (set_token c arg) ts
]

abbrev pub arg_of : Bytes → Bytes → Bytes → ℕ → Bytes → CreateUserTokensParams
arg_of user_id access refresh expiry token_type = record {
  user_id = user_id;
  access_token = access;
  refresh_token = refresh;
  expiry = expiry;
  token_type = token_type;
}

module _ (c : Collation) (db : Db) (u : Bytes) (h : IsHealthy db) where
  pub get_by_user_id_healthy :
      get_by_user_id c u db ≡ (or_no_rows (find_token c u db.user_tokens), behind db)
  unfolding get_by_user_id or_no_rows
  get_by_user_id_healthy =
      rw (get_user_token_healthy c db h u)
        (elim (Option-cases (find_token c u db.user_tokens)) [ inl e ↦ rw e | inr (t, e) ↦ rw e ])

-- The state behind a save: two statements, and one more row if the user had none.
abbrev pub next_id : Collation → Bytes → Db → ℕ
next_id c u db = elim (find_token c u db.user_tokens) [
  | none ↦ db.next_token_id + 1
  | some t ↦ db.next_token_id
]

abbrev pub saved : Collation → CreateUserTokensParams → Db → Db
saved c arg db = record (behind (behind db)) {
  user_tokens = upsert c db.next_token_id arg db.user_tokens;
  next_token_id = next_id c arg.user_id db;
}

module _ (gcm : Aead) (c : Collation) (db : Db) (h : IsHealthy db) (nonces : Nonces) (u : Bytes)
    (token : Token) (access refresh : Bytes)
    (ea : encrypt gcm nonces.access token.access_token ≡ ok access)
    (er : encrypt gcm nonces.refresh token.refresh_token ≡ ok refresh) where
  pub save_user_token_healthy :
      (now : ℕ)
      → save_user_token gcm c now nonces u token db ≡ (
        ok tt,
        saved c (arg_of u access refresh (effective_expiry now token) token.token_type) db,
      )
  unfolding save_user_token or_no_rows create update
  save_user_token_healthy now =
      rw (ea, er, get_by_user_id_healthy c db u h)
        (elim (Option-cases (find_token c u db.user_tokens)) [
          | inl e ↦
              rw (e, create_user_tokens_healthy c (behind db) (behind-IsHealthy db h) _)
                (rw (e, upsert, next_id))
          | inr (t, e) ↦
              rw (e, update_user_tokens_healthy c (behind db) (behind-IsHealthy db h) _)
                (rw (e, upsert, next_id))
        ])

  pub update_user_token_healthy : update_user_token gcm c nonces u token db ≡ (
    ok tt,
    record (behind db) {
      user_tokens =
          map (set_token c (arg_of u access refresh token.expiry token.token_type)) db.user_tokens;
    },
  )
  unfolding update_user_token update
  update_user_token_healthy = rw (ea, er, update_user_tokens_healthy c db h _)

-- What GetUserToken makes of the row that it finds.
abbrev opened_with : UserToken → Bytes → Result Bytes → Result Token
opened_with t access (ok refresh) = ok (record {
  access_token = access;
  refresh_token = refresh;
  expiry = t.expiry;
  token_type = t.token_type;
  expires_in = pos 0;
})
opened_with t access (err e) = err (wrap (codes "failed to decrypt refresh token") e)

abbrev opened : Aead → UserToken → Result Bytes → Result Token
opened gcm t (ok access) = opened_with t access (decrypt gcm t.refresh_token)
opened gcm t (err e) = err (wrap (codes "failed to decrypt access token") e)

abbrev pub view : Aead → Option UserToken → Result Token
view gcm none = err (wrap (codes "failed to get user token") no_rows)
view gcm (some t) = opened gcm t (decrypt gcm t.access_token)

pub view-some :
    (gcm : Aead) (t : UserToken) (access refresh : Bytes)
    → decrypt gcm t.access_token ≡ ok access
    → decrypt gcm t.refresh_token ≡ ok refresh
    → view gcm (some t)
      ≡ ok (record {
        access_token = access;
        refresh_token = refresh;
        expiry = t.expiry;
        token_type = t.token_type;
        expires_in = pos 0;
      })
view-some gcm t access refresh da dr = rw da (rw dr)

module _ (gcm : Aead) (c : Collation) (db : Db) (h : IsHealthy db) (u : Bytes) where
  pub get_user_token-view :
      get_user_token gcm c u db ≡ (view gcm (find_token c u db.user_tokens), behind db)
  unfolding get_user_token or_no_rows
  get_user_token-view =
      rw (get_by_user_id_healthy c db u h) (elim (Option-cases (find_token c u db.user_tokens)) [
        | inl e ↦ rw e
        | inr (t, e) ↦ rw e (elim (Result-cases (decrypt gcm t.access_token)) [
          | inr (x, bad) ↦ rw bad
          | inl (a, da) ↦ rw da (elim (Result-cases (decrypt gcm t.refresh_token)) [
            | inr (x, bad) ↦ rw bad
            | inl (r, dr) ↦ rw dr
          ])
        ])
      ])

module _ (c : Collation) (db : Db) (h : IsHealthy db) (u : Bytes) where
  pub delete_user_token_healthy : delete_user_token c u db ≡ (
    ok tt,
    record (behind db) {
      user_tokens = keep (λ (t : UserToken). not (c.same t.user_id u)) db.user_tokens;
    },
  )
  unfolding delete_user_token delete_by_user_id
  delete_user_token_healthy = rw (delete_user_tokens_healthy c db h u)

  pub has_user_token_healthy : has_user_token c u db ≡ (
    ok (elim (find_token c u db.user_tokens) as (λ _. Bool) [ none ↦ false | some t ↦ true ]),
    behind db,
  )
  unfolding has_user_token or_no_rows
  has_user_token_healthy =
      rw (get_by_user_id_healthy c db u h)
        (elim (Option-cases (find_token c u db.user_tokens)) [ inl e ↦ rw e | inr (t, e) ↦ rw e ])
