-- ===== src/Tokens/Upsert.antt =====
-- The rows of user_tokens behind a save: what a lookup finds, and that users keep one row.
use e5renew.Prelude.{ℕ, ◌≡◌, refl, ap, ◌∙◌, inl, inr, false, some, List, Option-cases}
use e5renew.Text.{Bytes}
use e5renew.Database.{Collation, UserToken, CreateUserTokensParams, row_of, find_token, set_token}
use e5renew.Database.Lookup.{
  find-append, find-set_token, find_token_same, set_token_own, set_token_other, same_switch,
  IsUnique, IsUnique-append, IsUnique-set_token,
}
use e5renew.Tokens.Steps.{upsert}

module _ (c : Collation) (id : ℕ) (arg : CreateUserTokensParams) (ts : List UserToken) where
  -- The row that a lookup of the user finds behind a save.
  pub record Holds : Type 0 where
    pub row : UserToken
    pub found : find_token c arg.user_id (upsert c id arg ts) ≡ some row
    pub access : row.access_token ≡ arg.access_token
    pub refresh : row.refresh_token ≡ arg.refresh_token
    pub expiry : row.expiry ≡ arg.expiry
    pub token_type : row.token_type ≡ arg.token_type

  pub upsert-Holds : Holds
  upsert-Holds = elim (Option-cases (find_token c arg.user_id ts)) [
    | inl e ↦ record {
      row = row_of id arg;
      found =
          rw (e, upsert)
            (find-append c arg.user_id ts (row_of id arg) ∙ rw (e, c.same_refl arg.user_id));
      access = refl;
      refresh = refl;
      expiry = refl;
      token_type = refl;
    }
    | inr (t, e) ↦
        let own = set_token_own c arg t (find_token_same c arg.user_id ts t e) in
        record {
          row = set_token c arg t;
          found = rw (e, upsert) (find-set_token c arg arg.user_id ts ∙ rw e);
          access = ap (λ (r : UserToken). r.access_token) own;
          refresh = ap (λ (r : UserToken). r.refresh_token) own;
          expiry = ap (λ (r : UserToken). r.expiry) own;
          token_type = ap (λ (r : UserToken). r.token_type) own;
        }
  ]

  pub upsert_other :
      (v : Bytes)
      → c.same arg.user_id v ≡ false
      → find_token c v (upsert c id arg ts) ≡ find_token c v ts
  upsert_other v apart = elim (Option-cases (find_token c arg.user_id ts)) [
    | inl e ↦
        rw (e, upsert)
          (find-append c v ts (row_of id arg)
            ∙ elim (Option-cases (find_token c v ts)) [ inl n ↦ rw (n, apart) | inr (r, n) ↦ rw n ])
    | inr (t, e) ↦
        rw (e, upsert)
          (find-set_token c arg v ts ∙ elim (Option-cases (find_token c v ts)) [
            | inl n ↦ rw n
            | inr (r, n) ↦ rw n (
                ap some (
                  set_token_other c arg r
                    (same_switch c r.user_id v arg.user_id (find_token_same c v ts r n) apart)))
          ])
  ]

  pub upsert-IsUnique : IsUnique c ts → IsUnique c (upsert c id arg ts)
  upsert-IsUnique h = elim (Option-cases (find_token c arg.user_id ts)) [
    | inl e ↦ rw (e, upsert) (IsUnique-append c ts (row_of id arg) h e)
    | inr (t, e) ↦ rw (e, upsert) (IsUnique-set_token c arg ts h)
  ]
