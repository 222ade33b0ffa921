-- ===== src/Health/Address.antt =====
-- What sanitizeDSN leaves of a database's address.
use e5renew.Prelude.{ℕ, ◌≡◌, refl, true, false, Option, none, some, [], ◌∷◌, ◌++◌, arith}
use e5renew.Text.{Bytes, codes, is_empty}
use e5renew.Text.Parts.{Lacks}
use e5renew.Health.{Url, behind_last, by_at, by_url, sanitize_dsn}

behind_last-none : (c : ℕ) (s : Bytes) → Lacks c s → behind_last c s ≡ none
unfolding behind_last
behind_last-none c [] h = refl
behind_last-none c (a ∷ s) h = rw (behind_last-none c s h.1) (ground (arith, h.0))

behind_last-append : (c : ℕ) (p s : Bytes) → Lacks c s → behind_last c (p ++ c ∷ s) ≡ some s
unfolding behind_last
behind_last-append c [] s h = rw (behind_last-none c s h) (ground arith)
behind_last-append c (a ∷ p) s h = rw (behind_last-append c p s h) refl

abbrev pub HasNoScheme : Option Url → Type 0
HasNoScheme none = Unit
HasNoScheme (some u) = is_empty u.scheme ≡ true

nonempty : (p s : Bytes) (c : ℕ) → is_empty (p ++ c ∷ s) ≡ false
nonempty [] s c = refl
nonempty (a ∷ p) s c = refl

module _ (credentials host : Bytes) (h : Lacks b'@' host) (k : is_empty host ≡ false) where
  by_url-hides :
      (u : Option Url)
      → HasNoScheme u
      → by_url (credentials ++ b'@' ∷ host) u ≡ codes "***@" ++ host
  unfolding by_url by_at
  by_url-hides none e = rw (behind_last-append b'@' credentials host h, k) refl
  by_url-hides (some u) e = rw (e, behind_last-append b'@' credentials host h, k) refl

  -- Of an address that is no URL with a scheme, nothing in front of the last "@" is shown, where
  -- something stands behind it.
  pub sanitize_dsn-hides :
      (parse : Bytes → Option Url)
      → HasNoScheme (parse (credentials ++ b'@' ∷ host))
      → sanitize_dsn parse (credentials ++ b'@' ∷ host) ≡ codes "***@" ++ host
  unfolding sanitize_dsn
  sanitize_dsn-hides parse e =
      rw (nonempty credentials host b'@') (by_url-hides (parse (credentials ++ b'@' ∷ host)) e)
