-- ===== src/Jobs/Call.antt =====
-- The job with the application's own credentials.
use e5renew.Prelude.{
  ◌||◌, Option, if◌then◌else◌, sym, ap, ◌∙◌, ℕ, ◌≡◌, refl, ◌↔◌, inl, inr, Bool, true, false, none,
  some, List, [], ◌∷◌, arith, Option-cases, Bool-cases, any,
}
use e5renew.Text.{Bytes, bytes_eq}
use e5renew.Text.Equality.{bytes_eq_iff}
use e5renew.Failure.{ok, err, is_ok}
use e5renew.ApiLog.{ApiLogEntry}
use e5renew.Jobs.{
  User, Users, name_of, messages_of, Called, counted, failed, panics, put, count_users,
  client_scope_entry, finish, get_users_and_messages_client_scope,
}

-- Whether there is no name: the user is nil, or has no display name
abbrev pub lacks_name : Option User → Bool
lacks_name u = elim (name_of u) [ none ↦ true | some name ↦ false ]

-- Whether the loop ends in a panic
abbrev pub is_panic : Called → Bool
is_panic panics = true
is_panic (counted count) = false
is_panic (failed e) = false

count_users-panics :
    (us : List (Option User)) (count : List (Bytes × ℕ))
    → is_panic (count_users count us) ≡ any lacks_name us
unfolding count_users
count_users-panics [] count = refl
count_users-panics (none ∷ us) count = refl
count_users-panics (some u ∷ us) count = elim (Option-cases u.display_name) [
  | inl nameless ↦ rw nameless refl
  | inr (name, named) ↦ rw named (count_users-panics us (put name u.messages count))
]

abbrev pub users_that_came : Users → List (Option User)
users_that_came (ok (some us)) = us
users_that_came (ok none) = []
users_that_came (err e) = []

-- Whether the call came back without an error, and without a response
abbrev pub is_nil : Users → Bool
is_nil (ok none) = true
is_nil (ok (some us)) = false
is_nil (err e) = false

finish-panics :
    (start end : ℕ) (users : Users)
    → is_panic (finish start end users).1 ≡ (is_nil users || any lacks_name (users_that_came users))
unfolding finish
finish-panics start end (ok (some us)) = count_users-panics us []
finish-panics start end (ok none) = refl
finish-panics start end (err e) = refl

-- count[name], for a key that may be missing
abbrev pub look : Bytes → List (Bytes × ℕ) → Option ℕ
look name [] = none
look name ((k, n) ∷ kvs) = if bytes_eq k name then some n else look name kvs

abbrev named : Bytes → Option Bytes → Bool
named name none = false
named name (some k) = bytes_eq k name

-- The number of messages of the last user with the name; `before` if there is none
abbrev pub last_of : Bytes → Option ℕ → List (Option User) → Option ℕ
last_of name before [] = before
last_of name before (u ∷ us) =
    last_of name (if named name (name_of u) then some (messages_of u) else before) us

apart :
    (k k' name : Bytes) → bytes_eq k' k ≡ false → bytes_eq k' name ≡ true → bytes_eq k name ≡ false
apart k k' name other own = elim (Bool-cases (bytes_eq k name)) [
  | inl same ↦ absurd (
      ground (
        arith,
        other,
        (bytes_eq_iff k' k).1 ((bytes_eq_iff k' name).0 own ∙ sym ((bytes_eq_iff k name).0 same)),
      ))
  | inr differs ↦ differs
]

look-put :
    (name k : Bytes) (n : ℕ) (kvs : List (Bytes × ℕ))
    → look name (put k n kvs) ≡ (if bytes_eq k name then some n else look name kvs)
unfolding put
look-put name k n [] = refl
look-put name k n ((k', m) ∷ kvs) = elim (Bool-cases (bytes_eq k' k)) [
  | inl same ↦
      let e : bytes_eq k' name ≡ bytes_eq k name =
        ap (λ x. bytes_eq x name) ((bytes_eq_iff k' k).0 same) in
      elim (Bool-cases (bytes_eq k name)) [
        | inl own ↦ rw (same, e, own) refl
        | inr elsewhere ↦ rw (same, e, elsewhere) refl
      ]
  | inr other ↦ elim (Bool-cases (bytes_eq k' name)) [
    | inl own ↦ rw (other, own, apart k k' name other own) refl
    | inr elsewhere ↦ rw (other, elsewhere) (look-put name k n kvs)
  ]
]

abbrev is_counted : Called → Bool
is_counted (counted count) = true
is_counted _ = false

counts_in : Called → List (Bytes × ℕ)
counts_in (counted count) = count
counts_in (failed e) = []
counts_in panics = []

of_counts :
    (name : Bytes) (us : List (Option User)) (count result : List (Bytes × ℕ))
    → count_users count us ≡ counted result
    → look name result ≡ last_of name (look name count) us
unfolding count_users counts_in
of_counts name [] count result h = sym (ap (λ x. look name (counts_in x)) h)
of_counts name (none ∷ us) count result h = absurd (ground (arith, ap is_panic h))
of_counts name (some u ∷ us) count result h = elim (Option-cases u.display_name) [
  | inl nameless ↦ absurd (ground (arith, ap is_panic (rw nameless at h)))
  | inr (k, known) ↦ rw known (
      of_counts name us (put k u.messages count) result (rw known at h)
      ∙ ap (λ o. last_of name o us) (look-put name k u.messages count))
]

finish-counts :
    (start end : ℕ) (users : Users) (result : List (Bytes × ℕ))
    → (finish start end users).1 ≡ counted result
    → (name : Bytes) → look name result ≡ last_of name none (users_that_came users)
unfolding finish
finish-counts start end (ok (some us)) result h name = of_counts name us [] result h
finish-counts start end (ok none) result h name = absurd (ground (arith, ap is_counted h))
finish-counts start end (err e) result h name = absurd (ground (arith, ap is_counted h))

-- What is logged of the call: a success without an error message, or a failure with one
abbrev pub Logs : Bool → ApiLogEntry → Type 0
Logs came entry = (entry.success ≡ came) × ((entry.error_message ≡ none) ↔ (came ≡ true))

finish-Logs :
    (start end : ℕ) (users : Users)
    → is_nil users ≡ false
    → (entry : ApiLogEntry) × ((finish start end users).0 ≡ some entry) × Logs (is_ok users) entry
unfolding finish client_scope_entry
finish-Logs start end (ok (some us)) there = (_, refl, (refl, (λ h. refl, λ h. refl)))
finish-Logs start end (ok none) there = absurd (ground (arith, there))
finish-Logs start end (err e) there = (_, refl, (refl, ground arith))

finish-silent :
    (start end : ℕ) (users : Users) → is_nil users ≡ true → (finish start end users).0 ≡ none
unfolding finish
finish-silent start end (ok (some us)) gone = absurd (ground (arith, gone))
finish-silent start end (ok none) gone = refl
finish-silent start end (err e) gone = absurd (ground (arith, gone))

-- Where credentials and client can be made: a call that fails, or that brings a response, is logged
-- once, as a success just if it came back, and one that brings a nil response is not. The job panics
-- just if the response, or one of its users, is nil, or one has no display name; and if it comes to
-- counts, the count of each name is the number of messages of the last user with that name.
pub client_scope_lem :
    (users : Users) (start end : ℕ)
    → (is_nil users ≡ false
        → (entry : ApiLogEntry) × ((get_users_and_messages_client_scope
              (ok tt)
              (ok tt)
              users
              start
              end).0
            ≡ some entry)
          × Logs (is_ok users) entry)
      × (is_nil users ≡ true
          → (get_users_and_messages_client_scope (ok tt) (ok tt) users start end).0 ≡ none)
      × (is_panic (get_users_and_messages_client_scope (ok tt) (ok tt) users start end).1
          ≡ (is_nil users || any lacks_name (users_that_came users)))
      × ((result : List (Bytes × ℕ))
          → (get_users_and_messages_client_scope (ok tt) (ok tt) users start end).1 ≡ counted result
          → (name : Bytes) → look name result ≡ last_of name none (users_that_came users))
unfolding get_users_and_messages_client_scope
client_scope_lem users start end = (
  finish-Logs start end users,
  finish-silent start end users,
  finish-panics start end users,
  finish-counts start end users,
)
