-- ===== src/Transport/Logging.antt =====
-- What the transport changes of a response, and what the entry says of the call.
use e5renew.Prelude.{
  ℕ, ◌≤◌, ◌<◌, ◌≡◌, refl, ap, subst, ◌↔◌, ◌⊎◌, inl, inr, true, false, none, some, arith, Bool-cases,
}
use mathlib.Core.Option.{some-injective}
use e5renew.Text.{contains}
use e5renew.Failure.{Result, ok, err}
use e5renew.ApiLog.{ApiLogEntry}
use e5renew.Transport.{
  Request, Response, Config, graph_host, is_unknown, is_success, read_body, failure_message,
  entry_of, with_entry, round_trip,
}

-- The length of the body is known, or the body can be read.
abbrev pub IsReadable : Result Response → Type 0
IsReadable (ok resp) = (is_unknown resp.content_length ≡ false) ⊎ (resp.body_fails ≡ false)
IsReadable (err e) = Unit

read_body_same :
    (resp : Response)
    → (is_unknown resp.content_length ≡ false) ⊎ (resp.body_fails ≡ false)
    → (read_body resp).1 ≡ resp
unfolding read_body
read_body_same resp (inl known) = rw known refl
read_body_same resp (inr reads) = elim (Bool-cases (is_unknown resp.content_length)) [
  | inl unknown ↦ rw (unknown, reads) refl
  | inr known ↦ rw known refl
]

-- The caller of the transport gets the outcome of the wrapped transport, whatever the host, where
-- the length of the body is known or the body can be read to its end.
pub round_trip_transparent :
    (config : Config) (req : Request) (start end : ℕ) (outcome : Result Response)
    → IsReadable outcome
    → (round_trip config req start end outcome).1 ≡ outcome
unfolding round_trip entry_of with_entry
round_trip_transparent config req start end (err e) h =
    elim (Bool-cases (contains req.host graph_host)) [
      | inl graph ↦ rw graph refl
      | inr elsewhere ↦ rw elsewhere refl
    ]
round_trip_transparent config req start end (ok resp) h =
    elim (Bool-cases (contains req.host graph_host)) [
      | inl graph ↦ rw graph (ap ok (read_body_same resp h))
      | inr elsewhere ↦ rw elsewhere refl
    ]

-- The call came back with a status from 200 to 299.
abbrev pub HasSucceeded : Result Response → Type 0
HasSucceeded (ok resp) = (200 ≤ resp.status_code) × (resp.status_code < 300)
HasSucceeded (err e) = ⊥

abbrev pub IsAccurate : Result Response → ApiLogEntry → Type 0
IsAccurate outcome entry =
    ((entry.success ≡ true) ↔ HasSucceeded outcome)
    × ((entry.error_message ≡ none) ↔ HasSucceeded outcome)

is_success_iff : (code : ℕ) → (is_success code ≡ true) ↔ ((200 ≤ code) × (code < 300))
is_success_iff code = ground arith

failure_message_iff :
    (resp : Response) → (failure_message resp ≡ none) ↔ (is_success resp.status_code ≡ true)
failure_message_iff resp = ground arith

entry_IsAccurate :
    (config : Config) (req : Request) (start end : ℕ) (outcome : Result Response)
    → IsAccurate outcome (entry_of config req start end outcome).0
unfolding entry_of
entry_IsAccurate config req start end (err e) = ground arith
entry_IsAccurate config req start end (ok resp) = (
  is_success_iff resp.status_code,
  ground (arith, failure_message_iff resp, is_success_iff resp.status_code),
)

-- One call is logged for a Graph host and none for another host; the entry says success, and has
-- no error message, just when the call came back with a status from 200 to 299.
pub round_trip-IsAccurate :
    (config : Config) (req : Request) (start end : ℕ) (outcome : Result Response)
    → (((round_trip config req start end outcome).0 ≡ none)
        ↔ (contains req.host graph_host ≡ false))
      × ((entry : ApiLogEntry)
          → (round_trip config req start end outcome).0 ≡ some entry
          → IsAccurate outcome entry)
unfolding round_trip with_entry
round_trip-IsAccurate config req start end outcome =
    elim (Bool-cases (contains req.host graph_host)) [
      | inl graph ↦ rw graph (
        ground arith,
        λ entry h.
            subst (IsAccurate outcome) (some-injective _ _ h)
              (entry_IsAccurate config req start end outcome),
      )
      | inr elsewhere ↦ rw elsewhere (ground arith, λ entry h. absurd (ground (arith, h)))
    ]
