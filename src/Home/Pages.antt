-- ===== src/Home/Pages.antt =====
-- internal/controller/home.go: the home page and the page of the user.
use e5renew.Prelude.{ℕ, Bool, true, false, Option, none, some, if◌then◌else◌}
use e5renew.Text.{Bytes, codes}
use e5renew.Failure.{Error, Result, ok, err}
use e5renew.Database.{Db, Collation}
use e5renew.Encryption.{Aead}
use e5renew.SafeError.{RequestInfo}
use e5renew.Tokens.{Token, has_user_token, get_user_token}
use e5renew.Session.{Session, Claims, Reply, redirect, failure}

-- The data of user.html
pub record UserPage : Type 0 where
  pub user : Bytes
  pub claims : Claims
  pub token : Token
  pub has_user_token : Bool
  pub user_token_expiry : Option ℕ

-- A page with its data, or another reply
pub data Shown {ℓ} (A : Type ℓ) : Type ℓ where
  shown : A → Shown A
  instead : Reply → Shown A

abbrev pub rendered {ℓ} : {A : Type ℓ} → A → Reply → Result (Unit {0}) → Shown A
rendered page otherwise (ok done) = shown page
rendered page otherwise (err e) = instead otherwise

abbrev pub render_error : RequestInfo → Result (Unit {0}) → Option Error
render_error info (ok done) = none
render_error info (err e) = some e

-- Index: the page shows the ID token of the session, if one is there. `render` is the outcome of
-- the template.
unfoldable pub index_page : RequestInfo → Result (Unit {0}) → Session → Shown (Option Bytes)
index_page info render session =
    rendered session.user (failure info (render_error info render) 500 "Unable to render page")
      render

module _ (gcm : Aead) (c : Collation) (info : RequestInfo) (render : Result (Unit {0})) where
  -- What the service tells of the user's token: whether it has one, and until when it is valid
  abbrev pub with_token : Result Token × Db → (Bool × Option ℕ) × Db
  with_token (ok token, db) = ((true, some token.expiry), db)
  with_token (err e, db) = ((true, none), db)

  abbrev pub with_answer : Bytes → Result Bool × Db → (Bool × Option ℕ) × Db
  unfolding get_user_token
  with_answer user_id (ok true, db) = with_token (get_user_token gcm c user_id db)
  with_answer user_id (ok false, db) = ((false, none), db)
  with_answer user_id (err e, db) = ((false, none), db)

  unfoldable pub token_status : Bool → Bytes → Db → (Bool × Option ℕ) × Db
  unfolding with_answer has_user_token
  token_status configured user_id db =
      if configured then with_answer user_id (has_user_token c user_id db) else ((false, none), db)

  abbrev pub to_login : Reply
  to_login = redirect (codes "/login") 307

  abbrev shown_with : Bytes → Claims → Token → (Bool × Option ℕ) × Db → Shown UserPage × Db
  shown_with user claims token ((has, expiry), db) = (
    rendered
        (record {
          user = user;
          claims = claims;
          token = token;
          has_user_token = has;
          user_token_expiry = expiry;
        })
        (failure info (render_error info render) 500 "Unable to render user page") render,
    db,
  )

  -- The redirects of User, in the order of its checks
  unfoldable pub user_with :
      Bool → Option Bytes → Option Claims → Option Token → Db → Shown UserPage × Db
  unfolding token_status
  user_with configured none claims token db = (instead to_login, db)
  user_with configured (some user) none token db = (instead to_login, db)
  user_with configured (some user) (some claims) none db = (instead to_login, db)
  user_with configured (some user) (some claims) (some token) db =
      shown_with user claims token (token_status configured claims.email db)

  -- User; `configured` tells whether the service for user tokens is there.
  unfoldable pub user_page : Bool → Session → Db → Shown UserPage × Db
  unfolding user_with
  user_page configured session db =
      user_with configured session.user session.claims session.token db
