-- ===== src/Language/Persistence.antt =====
-- The choice of a language survives in the cookie of the browser.
use e5renew.Prelude.{
  ℕ, ◌+◌, ◌≡◌, ltb, length, drop, refl, ap, ◌∙◌, arith, Bool, true, false, ◌&&◌, ◌||◌, not, map,
  Option, none, some, List, [], ◌∷◌, ◌++◌, ◌==◌, Bool-cases, inl, inr, if◌then◌else◌, any, all,
}
use e5renew.Text.{Bytes, codes, is_empty, bytes_eq, has_prefix}
use e5renew.Rows.{keep}
use e5renew.CookiePolicy
use e5renew.CookiePolicy.{request_uses_https}
use e5renew.Language.{
  is_cookie_byte, is_separator, sanitize_cookie_value, ends_in_quote, without_last, unquoted,
  parse_cookie_value, cookie_value, from_cookie, Cookie, Request, i18n_middleware,
  get_language_from_request,
}

-- A visit of a page: its path, its time in seconds, whether the browser was closed before it, the
-- parameter "lang", the header, what the server sees of HTTPS, and whether the browser itself uses it
pub record Visit : Type 0 where
  pub path : Bytes
  pub at : ℕ
  pub reopened : Bool
  pub query_lang : Bytes
  pub accept_language : Bytes
  pub transport : CookiePolicy.Request
  pub over_https : Bool

-- A cookie that the browser keeps, with its value as in Set-Cookie; `none` for the time at which it
-- expires is the end of the browser's session.
pub record Kept : Type 0 where
  pub name : Bytes
  pub raw : Bytes
  pub path : Bytes
  pub secure : Bool
  pub expires : Option ℕ

abbrev ends_in_slash : Bytes → Bool
ends_in_slash [] = false
ends_in_slash (b ∷ []) = b == b'/'
ends_in_slash (b ∷ c ∷ s) = ends_in_slash (c ∷ s)

-- RFC 6265, 5.1.4
abbrev path_matches : Bytes → Bytes → Bool
unfolding bytes_eq has_prefix
path_matches cookie_path path =
    has_prefix path cookie_path
    && (ends_in_slash cookie_path
        || (bytes_eq path cookie_path || has_prefix (drop (length cookie_path) path) (codes "/")))

abbrev is_alive : Visit → Option ℕ → Bool
is_alive v none = not v.reopened
is_alive v (some time) = ltb v.at time

-- Whether the server finds the cookie under the name "lang" in the request of a visit
abbrev is_sent : Kept → Visit → Bool
unfolding path_matches bytes_eq
is_sent kept v =
    bytes_eq kept.name (codes "lang")
    && (path_matches kept.path v.path && (v.over_https || not kept.secure))

-- The browser forgets what has expired.
abbrev held : Visit → Option Kept → Option Kept
held v none = none
held v (some kept) = if is_alive v kept.expires then some kept else none

abbrev sent : Visit → Option Kept → Option Bytes
unfolding is_sent
sent v none = none
sent v (some kept) = if is_sent kept v then some kept.raw else none

-- net/http leaves out a Max-Age of 0.
abbrev kept_from : ℕ → Option Kept → Option Cookie → Option Kept
unfolding sanitize_cookie_value
kept_from now before none = before
kept_from now before (some cookie) = some (record {
  name = cookie.name;
  raw = sanitize_cookie_value cookie.value;
  path = cookie.path;
  secure = cookie.secure;
  expires = if cookie.max_age == 0 then none else some (now + cookie.max_age);
})

abbrev request_of : Visit → Option Kept → Request
unfolding sent
request_of v kept = record {
  query_lang = v.query_lang;
  lang_cookie = sent v kept;
  accept_language = v.accept_language;
  transport = v.transport;
}

module _ (parse_accept_language : Bytes → List Bytes) (fold : Bytes → Bytes) where
  -- The languages of the localizers of the pages that a browser visits one after the other
  unfoldable pub languages : List Visit → Option Kept → List Bytes
  unfolding i18n_middleware kept_from request_of
  languages [] kept = []
  languages (v ∷ vs) kept =
      let (cookie, language) =
        i18n_middleware parse_accept_language fold (request_of v (held v kept)) in
      language ∷ languages vs (kept_from v.at (held v kept) cookie)

-- A visit that chooses no language, of an absolute path, before the time, and over HTTPS if the
-- cookie is only for that
unfoldable pub is_plain : ℕ → Bool → Visit → Bool
unfolding has_prefix
is_plain time secure v =
    is_empty v.query_lang
    && (has_prefix v.path (codes "/") && (ltb v.at time && (v.over_https || not secure)))

all-keep : (p : ℕ → Bool) (s : Bytes) → all p (keep p s) ≡ true
unfolding keep
all-keep p [] = refl
all-keep p (b ∷ s) = elim (Bool-cases (p b)) [
  | inl kept ↦ rw (kept, kept) (all-keep p s)
  | inr dropped ↦ rw dropped (all-keep p s)
]

ends_in_quote_behind : (s : Bytes) → ends_in_quote (s ++ b'"' ∷ []) ≡ true
unfolding ends_in_quote
ends_in_quote_behind [] = refl
ends_in_quote_behind (b ∷ []) = refl
ends_in_quote_behind (b ∷ c ∷ s) = ends_in_quote_behind (c ∷ s)

without_last_behind : (s : Bytes) → without_last (s ++ b'"' ∷ []) ≡ s
unfolding without_last
without_last_behind [] = refl
without_last_behind (b ∷ []) = refl
without_last_behind (b ∷ c ∷ s) = ap (λ t. b ∷ t) (without_last_behind (c ∷ s))

not_a_quote : (b : ℕ) → is_cookie_byte b ≡ true → (b == b'"') ≡ false
not_a_quote b h = ground (arith, h)

unquoted_of_valid : (s : Bytes) → all is_cookie_byte s ≡ true → unquoted s ≡ s
unfolding unquoted
unquoted_of_valid [] h = refl
unquoted_of_valid (b ∷ s) h = rw (not_a_quote b (ground (arith, h))) refl

unquoted_of_quoted : (s : Bytes) → unquoted (b'"' ∷ (s ++ b'"' ∷ [])) ≡ s
unfolding unquoted
unquoted_of_quoted s = rw (ends_in_quote_behind s) (without_last_behind s)

parsed :
    (s raw : Bytes)
    → all is_cookie_byte s ≡ true
    → unquoted raw ≡ s
    → parse_cookie_value raw ≡ some s
unfolding parse_cookie_value
parsed s raw valid e = ap (λ t. if all is_cookie_byte t then some t else none) e ∙ rw valid refl

parse-sanitize :
    (v : Bytes) → parse_cookie_value (sanitize_cookie_value v) ≡ some (keep is_cookie_byte v)
unfolding sanitize_cookie_value
parse-sanitize v =
    let kept = keep is_cookie_byte v in
    elim (Bool-cases (any is_separator kept)) [
      | inl quoted ↦ rw quoted (parsed kept _ (all-keep is_cookie_byte v) (unquoted_of_quoted kept))
      | inr bare ↦ rw bare (
          parsed kept _ (all-keep is_cookie_byte v)
            (unquoted_of_valid kept (all-keep is_cookie_byte v)))
    ]

-- The cookie of a choice of language at a time
abbrev chosen_cookie : ℕ → Bytes → Bool → Kept
chosen_cookie now language secure = record {
  name = codes "lang";
  raw = sanitize_cookie_value language;
  path = codes "/";
  secure = secure;
  expires = some (now + 31_536_000);
}

module _ (parse_accept_language : Bytes → List Bytes) (fold : Bytes → Bytes) where
  choosing :
      (v : Visit) (vs : List Visit) (kept : Option Kept)
      → is_empty v.query_lang ≡ false
      → languages parse_accept_language fold (v ∷ vs) kept
        ≡ v.query_lang
          ∷ languages parse_accept_language fold vs
              (some (chosen_cookie v.at v.query_lang (request_uses_https fold v.transport)))
  unfolding languages kept_from
  choosing v vs kept chosen = rw chosen refl

  module _ (now : ℕ) (language : Bytes) (secure : Bool) (v : Visit)
      (plain : is_plain (now + 31_536_000) secure v ≡ true) where
    abbrev kept : Kept
    kept = chosen_cookie now language secure

    still_held : held v (some kept) ≡ some kept
    unfolding is_plain
    still_held =
        let early : ltb v.at (now + 31_536_000) ≡ true = ground (arith, plain) in rw early refl

    is_sent_when_plain : is_sent kept v ≡ true
    unfolding is_sent path_matches bytes_eq is_plain
    is_sent_when_plain =
        let below : has_prefix v.path (codes "/") ≡ true = ground (arith, plain) in
        let safe : (v.over_https || not secure) ≡ true = ground (arith, plain) in
        ground (arith, below, safe)

    shown_when_plain :
        i18n_middleware parse_accept_language fold (request_of v (held v (some kept)))
        ≡ (none, keep is_cookie_byte language)
    unfolding i18n_middleware get_language_from_request request_of sent cookie_value
        parse_cookie_value is_plain
    shown_when_plain =
        let none_chosen : is_empty v.query_lang ≡ true = ground (arith, plain) in
        ap (λ k. i18n_middleware parse_accept_language fold (request_of v k)) still_held
        ∙ rw none_chosen (
            ap (λ c. (none, from_cookie parse_accept_language c v.accept_language))
              (ap (λ b. cookie_value (if b then some kept.raw else none)) is_sent_when_plain
                ∙ parse-sanitize language))

  staying :
      (now : ℕ) (language : Bytes) (secure : Bool) (vs : List Visit)
      → all (is_plain (now + 31_536_000) secure) vs ≡ true
      → languages parse_accept_language fold vs (some (chosen_cookie now language secure))
        ≡ map (λ v. keep is_cookie_byte language) vs
  unfolding languages kept_from
  staying now language secure [] plain = refl
  staying now language secure (v ∷ vs) plain =
      let this : is_plain (now + 31_536_000) secure v ≡ true = ground (arith, plain) in
      let rest : all (is_plain (now + 31_536_000) secure) vs ≡ true = ground (arith, plain) in
      ap
        (λ p.
          p.1
          ∷ languages parse_accept_language fold vs
              (kept_from v.at (held v (some (chosen_cookie now language secure))) p.0))
        (shown_when_plain now language secure v this)
      ∙ ap (λ k. keep is_cookie_byte language ∷ languages parse_accept_language fold vs k)
          (still_held now language secure v this)
      ∙ ap (λ t. keep is_cookie_byte language ∷ t) (staying now language secure vs rest)

  -- A browser that asks for a language by the parameter "lang" gets the page's localizer for that
  -- language; and for a year, while it asks for no other, the localizers of the pages behind it, of
  -- every path, are for the same language, whatever its header Accept-Language says and although it is
  -- closed in between, if it uses HTTPS or the choice was not seen to come over HTTPS. Bytes that no
  -- cookie may have are dropped from the language then.
  pub languages_stay :
      (v : Visit) (vs : List Visit) (kept : Option Kept)
      → is_empty v.query_lang ≡ false
      → all (is_plain (v.at + 31_536_000) (request_uses_https fold v.transport)) vs ≡ true
      → languages parse_accept_language fold (v ∷ vs) kept
        ≡ v.query_lang ∷ map (λ w. keep is_cookie_byte v.query_lang) vs
  languages_stay v vs kept chosen plain =
      choosing v vs kept chosen
      ∙ ap (λ t. v.query_lang ∷ t)
          (staying v.at v.query_lang (request_uses_https fold v.transport) vs plain)
