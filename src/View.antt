-- ===== src/View.antt =====
-- The user of a request: internal/middleware/session_user.go, internal/requestctx/user.go, and
-- mergeContextData of internal/view/template.go, which adds it to the data of a template.
pub mod Merged
use e5renew.Prelude.{Bool, true, false, Option, none, some, List, [], ◌∷◌, if◌then◌else◌}
use e5renew.Text.{Bytes, codes, bytes_eq}

-- The value of the key "user" of a session: an oidc.IDToken, a pointer to one, or anything else. A
-- user is a `U`, a nil pointer `none`.
pub data SessionValue (U : Type 0) : Type 0 where
  id_token : U → SessionValue U
  id_token_pointer : Option U → SessionValue U
  another : SessionValue U

-- What a request's context holds under userKey
pub record Context (U : Type 0) : Type 0 where
  pub request_user : Option U

-- The `data` of a template: nil, a map from strings, or another value
pub data TemplateData (V : Type 0) : Type 0 where
  nil : TemplateData V
  mapped : List (Bytes × V) → TemplateData V
  of_value : V → TemplateData V

-- m[key], for a map as a list of its entries
unfoldable pub lookup : {V : Type 0} → Bytes → List (Bytes × V) → Option V
unfolding bytes_eq
lookup key [] = none
lookup key ((k, v) ∷ m) = let rest = lookup key m in if bytes_eq key k then some v else rest

abbrev pub user_key : Bytes
user_key = codes "User"

module _ {U : Type 0} where
  unfoldable pub with_user : Context U → Option U → Context U
  with_user ctx none = ctx
  with_user ctx (some user) = record ctx { request_user = some user }

  unfoldable pub user_from_context : Context U → Option U
  user_from_context ctx = ctx.request_user

  abbrev user_of : SessionValue U → Option U
  user_of (id_token v) = some v
  user_of (id_token_pointer v) = v
  user_of another = none

  abbrev of_session : Context U → Option (SessionValue U) → Context U
  unfolding with_user
  of_session ctx none = ctx
  of_session ctx (some value) = with_user ctx (user_of value)

  -- The context in which SessionUserMiddleware calls the next handler; `managed` tells whether there
  -- is a session manager.
  unfoldable pub session_user_middleware : Bool → Option (SessionValue U) → Context U → Context U
  unfolding of_session
  session_user_middleware managed value ctx = if managed then of_session ctx value else ctx

module _ {U V : Type 0} (user_value : U → V) where
  abbrev pub unless_exists : Option V → U → List (Bytes × V) → List (Bytes × V)
  unless_exists (some v) user m = m
  unless_exists none user m = (user_key, user_value user) ∷ m

  abbrev with_user_value : Option U → TemplateData V → TemplateData V
  unfolding lookup
  with_user_value none d = d
  with_user_value (some user) nil = mapped ((user_key, user_value user) ∷ [])
  with_user_value (some user) (mapped m) = mapped (unless_exists (lookup user_key m) user m)
  with_user_value (some user) (of_value v) = of_value v

  unfoldable pub merge_context_data : Context U → TemplateData V → TemplateData V
  unfolding user_from_context with_user_value
  merge_context_data ctx d = with_user_value (user_from_context ctx) d
