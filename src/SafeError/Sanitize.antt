-- ===== src/SafeError/Sanitize.antt =====
-- Which error texts reach a client.
use e5renew.Prelude.{
  String, ◌≡◌, refl, ◌⊎◌, inl, inr, false, some, List, [], ◌∷◌, if◌then◌else◌, Bool-cases,
}
use e5renew.Text.{Bytes, codes, contains, contains_any, to_lower}
use e5renew.Text.Search.{Occurs, contains-Occurs, Occurs-contains}
use e5renew.Text.Patterns.{Hit, contains_any-Hit, Hit-contains_any}
use e5renew.Failure.{Error, error_text}
use e5renew.SafeError.{sanitize_error, internal_error, sensitive_patterns, get_safe_error_message}

-- The eleven words that tell of the inside of the program
abbrev pub telling_words : List Bytes
telling_words =
    codes "password"
    ∷ codes "secret"
    ∷ codes "token"
    ∷ codes "key"
    ∷ codes "credential"
    ∷ codes "auth"
    ∷ codes "login"
    ∷ codes "database"
    ∷ codes "sql"
    ∷ codes "connection"
    ∷ codes "dsn"
    ∷ []

-- A telling word in any case, or a slash and a colon, as in a path with a line number.
abbrev pub Leaks : (Bytes → Bytes) → Bytes → Type 0
Leaks fold s = Hit (to_lower fold s) telling_words ⊎ (Occurs (codes "/") s × Occurs (codes ":") s)

-- SanitizeError returns the text of an error unchanged when it leaks nothing, and the fixed
-- message for an internal error when it does; a text leaks when one of the words password,
-- secret, token, key, credential, auth, login, database, sql, connection, dsn occurs in its
-- lower-case form, or both a slash and a colon occur in it.
pub sanitize_error_lem :
    (fold : Bytes → Bytes) (e : Error)
    → (Leaks fold (error_text e) × (sanitize_error fold (some e) ≡ internal_error))
      ⊎ ((¬ Leaks fold (error_text e)) × (sanitize_error fold (some e) ≡ error_text e))
unfolding sanitize_error
sanitize_error_lem fold e =
    elim (Bool-cases (contains_any (to_lower fold (error_text e)) sensitive_patterns)) [
      | inl word ↦ inl (inl (contains_any-Hit _ _ word), rw word)
      | inr clean ↦ elim (Bool-cases (contains (error_text e) (codes "/"))) [
        | inl slash ↦ elim (Bool-cases (contains (error_text e) (codes ":"))) [
          | inl colon ↦
              inl (
                inr (contains-Occurs _ _ slash, contains-Occurs _ _ colon),
                rw (clean, slash, colon),
              )
          | inr plain ↦
              inr (not_leaking fold (error_text e) clean (inr plain), rw (clean, slash, plain))
        ]
        | inr plain ↦ inr (not_leaking fold (error_text e) clean (inl plain), rw (clean, plain))
      ]
    ]
  where
    not_leaking :
        (fold : Bytes → Bytes) (s : Bytes)
        → contains_any (to_lower fold s) sensitive_patterns ≡ false
        → ((contains s (codes "/") ≡ false) ⊎ (contains s (codes ":") ≡ false))
        → ¬ Leaks fold s
    not_leaking fold s clean (inl plain) (inl hit) = cc (clean, Hit-contains_any _ _ hit)
    not_leaking fold s clean (inr plain) (inl hit) = cc (clean, Hit-contains_any _ _ hit)
    not_leaking fold s clean (inl plain) (inr (slash, colon)) =
        cc (plain, Occurs-contains _ _ slash)
    not_leaking fold s clean (inr plain) (inr (slash, colon)) =
        cc (plain, Occurs-contains _ _ colon)

-- The keywords in the order in which they are looked for, with their messages.
abbrev pub safe_messages : List (Bytes × String)
safe_messages =
    (codes "not found", "The requested resource was not found")
    ∷ (codes "unauthorized", "You are not authorized to access this resource")
    ∷ (codes "forbidden", "Access to this resource is forbidden")
    ∷ (codes "timeout", "The request timed out. Please try again")
    ∷ (codes "connection", "A connection error occurred. Please try again")
    ∷ (codes "invalid", "Invalid input provided")
    ∷ (codes "duplicate", "A duplicate entry was found")
    ∷ []

-- `message` belongs to the first keyword that occurs in `s`, or to none of them.
abbrev pub Picks : Bytes → List (Bytes × String) → String → Type 0
Picks s [] message = message ≡ "An internal server error occurred"
Picks s ((keyword, reply) ∷ rest) message =
    (Occurs keyword s × (message ≡ reply)) ⊎ ((¬ Occurs keyword s) × Picks s rest message)

pick : Bytes → List (Bytes × String) → String
pick s [] = "An internal server error occurred"
pick s ((keyword, reply) ∷ rest) = if contains s keyword then reply else pick s rest

pick-Picks : (s : Bytes) (table : List (Bytes × String)) → Picks s table (pick s table)
unfolding pick
pick-Picks s [] = refl
pick-Picks s ((keyword, reply) ∷ rest) = elim (Bool-cases (contains s keyword)) [
  | inl found ↦ inl (contains-Occurs _ _ found, rw found)
  | inr missed ↦ inr (λ o. cc (missed, Occurs-contains _ _ o), rw missed (pick-Picks s rest))
]

-- The safe message of an error is that of the first keyword that occurs in the lower-case form of
-- its text, and the general one if none does: it is always one of eight fixed texts.
pub get_safe_error_message-Picks :
    (fold : Bytes → Bytes) (e : Error)
    → Picks (to_lower fold (error_text e)) safe_messages (get_safe_error_message fold (some e))
unfolding get_safe_error_message pick
get_safe_error_message-Picks fold e = pick-Picks (to_lower fold (error_text e)) safe_messages
