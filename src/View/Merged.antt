-- ===== src/View/Merged.antt =====
-- The data of a page behind SessionUserMiddleware.
use e5renew.Prelude.{
  ◌≡◌, refl, ap, ◌∙◌, inl, inr, true, Option, none, some, List, Bool-cases, if◌then◌else◌,
}
use e5renew.Text.{Bytes, bytes_eq}
use e5renew.Text.Equality.{bytes_eq_iff}
use e5renew.View.{
  id_token, Context, mapped, lookup, user_key, unless_exists, session_user_middleware,
  merge_context_data, with_user, user_from_context,
}

abbrev pub or_else {ℓ} : {A : Type ℓ} → Option A → A → A
or_else none a = a
or_else (some b) a = b

module _ {U V : Type 0} (user_value : U → V) (user : U) where
  lookup-merged :
      (key : Bytes) (m : List (Bytes × V)) (o : Option V)
      → lookup user_key m ≡ o
      → lookup key (unless_exists user_value o user m)
        ≡ (if bytes_eq key user_key then some (or_else o (user_value user)) else lookup key m)
  unfolding lookup
  lookup-merged key m none e = refl
  lookup-merged key m (some v) e = elim (Bool-cases (bytes_eq key user_key)) [
    | inr differs ↦ rw differs refl
    | inl same ↦ rw same (ap (λ k. lookup k m) ((bytes_eq_iff key user_key).0 same) ∙ e)
  ]

  -- Behind SessionUserMiddleware, in a session with a user, the data of a page that is given to the
  -- template as a map has the key "User": with the value that the handler gave it, and the user of the
  -- session if it gave none; every other key has the value that the handler gave it.
  merge_context_data-lookup :
      (ctx : Context U) (m : List (Bytes × V))
      → (merged : List (Bytes × V)) × (merge_context_data user_value
            (session_user_middleware true (some (id_token user)) ctx)
            (mapped m)
          ≡ mapped merged)
        × ((key : Bytes)
            → lookup key merged ≡ (
                if bytes_eq key user_key
                then some (or_else (lookup user_key m) (user_value user))
                else lookup key m))
  unfolding merge_context_data session_user_middleware with_user user_from_context
  merge_context_data-lookup ctx m = (
    unless_exists user_value (lookup user_key m) user m,
    refl,
    λ key. lookup-merged key m (lookup user_key m) refl,
  )
