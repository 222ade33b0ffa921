-- ===== src/Database/Lookup.antt =====
-- How a lookup by user sees an insertion, an update and a deletion, and that users keep one row.
use e5renew.Prelude.{
  ◌≡◌, refl, sym, ◌∙◌, inl, inr, Bool, true, false, not, Option, none, some, List, [], ◌∷◌, ◌++◌,
  map, arith, if◌then◌else◌, Bool-cases,
}
use e5renew.Text.{Bytes}
use e5renew.Database.{Collation, UserToken, CreateUserTokensParams, keep, find_token, set_token}

module _ (c : Collation) where
  same_left : (s t u : Bytes) → c.same s t ≡ true → c.same s u ≡ c.same t u
  same_left s t u e = elim (Bool-cases (c.same s u)) [
    | inl su ↦ su ∙ sym (c.same_trans t s u (c.same_sym s t e) su)
    | inr su ↦ elim (Bool-cases (c.same t u)) [
      | inl tu ↦ cc (c.same_trans s t u e tu)
      | inr tu ↦ su ∙ sym tu
    ]
  ]

  same_right : (s t u : Bytes) → c.same t u ≡ true → c.same s t ≡ c.same s u
  same_right s t u e = elim (Bool-cases (c.same s t)) [
    | inl st ↦ st ∙ sym (c.same_trans s t u st e)
    | inr st ↦ elim (Bool-cases (c.same s u)) [
      | inl su ↦ cc (c.same_trans s u t su (c.same_sym t u e))
      | inr su ↦ st ∙ sym su
    ]
  ]

  -- Rows of the updated user become `set_token arg`, others stay.
  pub find-set_token :
      (arg : CreateUserTokensParams) (u : Bytes) (ts : List UserToken)
      → find_token c u (map (set_token c arg) ts)
        ≡ elim (find_token c u ts) as (λ _. Option UserToken) [
          | none ↦ none
          | some t ↦ some (set_token c arg t)
        ]
  unfolding find_token set_token
  find-set_token arg u [] = refl
  find-set_token arg u (t ∷ ts) = ground (arith, find-set_token arg u ts)

  pub find-append :
      (u : Bytes) (ts : List UserToken) (r : UserToken)
      → find_token c u (ts ++ r ∷ []) ≡ elim (find_token c u ts) as (λ _. Option UserToken) [
        | none ↦ if c.same r.user_id u then some r else none
        | some t ↦ some t
      ]
  unfolding find_token
  find-append u [] r = refl
  find-append u (t ∷ ts) r = ground (arith, find-append u ts r)

  pub find_token_same :
      (u : Bytes) (ts : List UserToken) (t : UserToken)
      → find_token c u ts ≡ some t
      → c.same t.user_id u ≡ true
  unfolding find_token
  find_token_same u [] t h = cc
  find_token_same u (r ∷ ts) t h = ground (arith, find_token_same u ts t)

  pub find_token_cong :
      (u v : Bytes) (ts : List UserToken)
      → c.same u v ≡ true
      → find_token c u ts ≡ find_token c v ts
  unfolding find_token
  find_token_cong u v [] e = refl
  find_token_cong u v (t ∷ ts) e =
      ground (arith, find_token_cong u v ts, same_right t.user_id u v e)

  pub find-keep :
      (u v : Bytes) (ts : List UserToken)
      → find_token c v (keep (λ (t : UserToken). not (c.same t.user_id u)) ts)
        ≡ (if c.same u v then none else find_token c v ts)
  unfolding find_token keep
  find-keep u v [] = ground arith
  find-keep u v (t ∷ ts) = elim (Bool-cases (c.same t.user_id u)) [
    | inl gone ↦ ground (arith, find-keep u v ts, same_left t.user_id u v gone)
    | inr stays ↦ ground (arith, find-keep u v ts, c.same_trans t.user_id v u, c.same_sym u v)
  ]

  pub set_token-user :
      (arg : CreateUserTokensParams) (t : UserToken) → (set_token c arg t).user_id ≡ t.user_id
  unfolding set_token
  set_token-user arg t = ground arith

  -- No user has two rows.
  abbrev pub IsUnique : List UserToken → Type 0
  IsUnique [] = Unit
  IsUnique (t ∷ ts) = (find_token c t.user_id ts ≡ none) × IsUnique ts

  head_differs :
      (t : UserToken) (ts : List UserToken) (r : UserToken)
      → find_token c r.user_id (t ∷ ts) ≡ none
      → (c.same r.user_id t.user_id ≡ false) × (find_token c r.user_id ts ≡ none)
  unfolding find_token
  head_differs t ts r e = elim (Bool-cases (c.same t.user_id r.user_id)) [
    | inl same ↦ cc (rw (same, find_token) at e)
    | inr other ↦ elim (Bool-cases (c.same r.user_id t.user_id)) [
      | inl back ↦ cc (other, c.same_sym r.user_id t.user_id back)
      | inr apart ↦ (apart, rw (other, find_token) at e)
    ]
  ]

  pub IsUnique-append :
      (ts : List UserToken) (r : UserToken)
      → IsUnique ts
      → find_token c r.user_id ts ≡ none
      → IsUnique (ts ++ r ∷ [])
  IsUnique-append [] r h new_user = (unfold find_token in refl, tt)
  IsUnique-append (t ∷ ts) r h new_user =
      let (other_row, absent) = head_differs t ts r new_user in
      (find-append t.user_id ts r ∙ rw h.0 (rw other_row), IsUnique-append ts r h.1 absent)

  pub IsUnique-set_token :
      (arg : CreateUserTokensParams) (ts : List UserToken)
      → IsUnique ts
      → IsUnique (map (set_token c arg) ts)
  IsUnique-set_token arg [] h = tt
  IsUnique-set_token arg (t ∷ ts) h = (
    find-set_token arg (set_token c arg t).user_id ts ∙ rw (set_token-user arg t) (rw h.0),
    IsUnique-set_token arg ts h.1,
  )

  find_none-keep :
      (p : UserToken → Bool) (u : Bytes) (ts : List UserToken)
      → find_token c u ts ≡ none
      → find_token c u (keep p ts) ≡ none
  unfolding find_token keep
  find_none-keep p u [] h = refl
  find_none-keep p u (t ∷ ts) h = ground (arith, find_none-keep p u ts)

  pub IsUnique-keep :
      (p : UserToken → Bool) (ts : List UserToken) → IsUnique ts → IsUnique (keep p ts)
  unfolding keep
  IsUnique-keep p [] h = tt
  IsUnique-keep p (t ∷ ts) h = elim (Bool-cases (p t)) [
    | inl kept ↦ rw kept (find_none-keep p t.user_id ts h.0, IsUnique-keep p ts h.1)
    | inr dropped ↦ rw dropped (IsUnique-keep p ts h.1)
  ]

  pub set_token_other :
      (arg : CreateUserTokensParams) (t : UserToken)
      → c.same t.user_id arg.user_id ≡ false
      → set_token c arg t ≡ t
  unfolding set_token
  set_token_other arg t h = rw h

  pub set_token_own :
      (arg : CreateUserTokensParams) (t : UserToken)
      → c.same t.user_id arg.user_id ≡ true
      → set_token c arg t ≡ record t {
        access_token = arg.access_token;
        refresh_token = arg.refresh_token;
        expiry = arg.expiry;
        token_type = arg.token_type;
      }
  unfolding set_token
  set_token_own arg t h = rw h

  pub same_switch : (s t u : Bytes) → c.same s t ≡ true → c.same u t ≡ false → c.same s u ≡ false
  same_switch s t u st ut = elim (Bool-cases (c.same s u)) [
    | inl su ↦ cc (c.same_trans u s t (c.same_sym s u su) st)
    | inr su ↦ su
  ]

  appended_last :
      (u : Bytes) (ts : List UserToken) (r : UserToken)
      → find_token c u (ts ++ r ∷ []) ≡ none
      → c.same r.user_id u ≡ false
  unfolding find_token
  appended_last u [] r h = ground arith
  appended_last u (t ∷ ts) r h = ground (arith, appended_last u ts r)

  find_behind :
      (s : UserToken) (ts : List UserToken) (r t : UserToken)
      → c.same s.user_id r.user_id ≡ false
      → find_token c r.user_id (s ∷ ts) ≡ some t
      → find_token c r.user_id ts ≡ some t
  unfolding find_token
  find_behind s ts r t other h = rw other at h

  -- A second row of a user breaks the uniqueness.
  pub not-IsUnique-append :
      (ts : List UserToken) (r t : UserToken)
      → find_token c r.user_id ts ≡ some t
      → ¬ IsUnique (ts ++ r ∷ [])
  unfolding find_token
  not-IsUnique-append [] r t h unique = cc
  not-IsUnique-append (s ∷ ts) r t h unique = elim (Bool-cases (c.same s.user_id r.user_id)) [
    | inl own ↦ cc (appended_last s.user_id ts r unique.0, c.same_sym s.user_id r.user_id own)
    | inr other ↦ not-IsUnique-append ts r t (find_behind s ts r t other h) unique.1
  ]

  -- An update of a user that has no row changes nothing.
  pub map-set_token_missing :
      (arg : CreateUserTokensParams) (ts : List UserToken)
      → find_token c arg.user_id ts ≡ none
      → map (set_token c arg) ts ≡ ts
  unfolding find_token set_token
  map-set_token_missing arg [] h = refl
  map-set_token_missing arg (t ∷ ts) h = ground (arith, map-set_token_missing arg ts)
