-- ===== src/CookiePolicy.antt =====
-- internal/cookiepolicy/secure.go: whether a request came over HTTPS, and its cookies are secure.
use e5renew.Prelude.{
  ℕ, Bool, true, false, Option, none, some, List, [], ◌∷◌, map, ◌==◌, if◌then◌else◌,
}
use mathlib.Core.List.{reverse}
use mathlib.Core.Option
use e5renew.Text.{Bytes, codes, is_empty, split, trim_space, to_lower, bytes_eq, index}
pub mod Headers

-- strings.EqualFold. `fold` folds a text that is not ASCII, Latin letters to the small ones.
abbrev pub equal_fold : (Bytes → Bytes) → Bytes → Bytes → Bool
equal_fold fold s t = bytes_eq (to_lower fold s) (to_lower fold t)

-- The first part that has more than spaces, trimmed
unfoldable pub first_of_parts : List Bytes → Option Bytes
first_of_parts [] = none
first_of_parts (p ∷ ps) =
    let rest = first_of_parts ps in if is_empty (trim_space p) then rest else some (trim_space p)

abbrev pub or_value : Option Bytes → Bytes → Bytes
or_value none d = d
or_value (some x) d = x

unfoldable pub first_comma_separated_value : List Bytes → Bytes
unfolding first_of_parts
first_comma_separated_value [] = []
first_comma_separated_value (value ∷ values) =
    let rest = first_comma_separated_value values in
    or_value (first_of_parts (split value b',')) rest

-- strings.Cut(s, "="): what stands in front of the first "=" and behind it
cut : Bytes → Option (Bytes × Bytes)
cut [] = none
cut (c ∷ s) = if c == b'=' then some ([], s) else Option.map (λ p. (c ∷ p.0, p.1)) (cut s)

is_quote : ℕ → Bool
is_quote c = c == 34

-- strings.Trim(s, "\"")
drop_quotes : Bytes → Bytes
unfolding is_quote
drop_quotes [] = []
drop_quotes (c ∷ s) = let rest = drop_quotes s in if is_quote c then rest else c ∷ s

trim_quotes : Bytes → Bytes
unfolding drop_quotes
trim_quotes s = reverse (drop_quotes (reverse (drop_quotes s)))

is_proto : (Bytes → Bytes) → Option (Bytes × Bytes) → Option Bytes
unfolding trim_quotes
is_proto fold none = none
is_proto fold (some (key, value)) =
    if equal_fold fold key (codes "proto") then some (trim_quotes value) else none

first_proto : (Bytes → Bytes) → List Bytes → Bytes
unfolding is_proto cut
first_proto fold [] = []
first_proto fold (part ∷ parts) = elim (is_proto fold (cut (trim_space part))) [
  | some value ↦ value
  | none ↦ first_proto fold parts
]

unfoldable pub first_forwarded_proto : (Bytes → Bytes) → List Bytes → Bytes
unfolding first_proto first_comma_separated_value
first_forwarded_proto fold values =
    first_proto fold (split (first_comma_separated_value values) b';')

-- The lines of the two headers, and whether the connection is encrypted
pub record Request : Type 0 where
  pub tls : Bool
  pub x_forwarded_proto : List Bytes
  pub forwarded : List Bytes

unfoldable pub request_uses_https : (Bytes → Bytes) → Request → Bool
unfolding first_comma_separated_value first_forwarded_proto
request_uses_https fold r =
    if r.tls
    then true
    else if equal_fold fold (first_comma_separated_value r.x_forwarded_proto) (codes "https")
    then true
    else equal_fold fold (first_forwarded_proto fold r.forwarded) (codes "https")

-- ShouldUseSecureCookieForRedirectURL, with the scheme that url.Parse finds
unfoldable pub should_use_secure_cookie_for_redirect_url :
    (Bytes → Bytes) → (Bytes → Option Bytes) → Bytes → Bool
should_use_secure_cookie_for_redirect_url fold parse raw_url = elim (parse (trim_space raw_url)) [
  | none ↦ false
  | some scheme ↦ equal_fold fold scheme (codes "https")
]
