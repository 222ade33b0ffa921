-- ===== src/Repository.antt =====
-- internal/repository/usertoken.go: what the services see of the user_tokens table.
use e5renew.Prelude.{ℕ, List}
use e5renew.Text.{Bytes}
use e5renew.Failure.{Exec, pure, ◌>>=◌}
use e5renew.Database
use e5renew.Database.{Db, Collation, UserToken, CreateUserTokensParams}

pub record UserTokenRecord : Type 0 where
  pub user_id : Bytes
  pub access_token : Bytes
  pub refresh_token : Bytes
  pub expiry : ℕ
  pub token_type : Bytes

abbrev params : UserTokenRecord → CreateUserTokensParams
params r = record {
  user_id = r.user_id;
  access_token = r.access_token;
  refresh_token = r.refresh_token;
  expiry = r.expiry;
  token_type = r.token_type;
}

module _ (c : Collation) where
  unfoldable pub create : UserTokenRecord → Exec Db (Unit {0})
  create r = Database.create_user_tokens c (params r)

  unfoldable pub update : UserTokenRecord → Exec Db (Unit {0})
  update r = Database.update_user_tokens c (params r)

  unfoldable pub get_by_user_id : Bytes → Exec Db UserToken
  get_by_user_id user_id = do
    token ← Database.get_user_token c user_id
    pure (record {
      id = token.id;
      user_id = token.user_id;
      access_token = token.access_token;
      refresh_token = token.refresh_token;
      expiry = token.expiry;
      token_type = token.token_type;
    })

  unfoldable pub list : Exec Db (List UserToken)
  list = do tokens ← Database.list_user_tokens c; pure tokens

  unfoldable pub delete_by_user_id : Bytes → Exec Db (Unit {0})
  delete_by_user_id user_id = Database.delete_user_tokens c user_id
