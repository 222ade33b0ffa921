-- ===== src/Telemetry/Sums.antt =====
-- What the functions that record measurements add to the sums over the instruments.
use e5renew.Prelude.{
  ℕ, String, Bool-cases, inl, inr, ◌+◌, ◌≤◌, ◌≡◌, arith, List, [], ◌∷◌, ◌++◌, leb,
}
use e5renew.Prelude.Int.{ℤ}
use e5renew.Telemetry.{
  http_request_duration, http_request_count, error_count, Instrument, Attribute, Measurement,
  Measured, measure, record_http_request, record_error,
}
use e5renew.Telemetry.Requests.{Served, record_response, sum_of, raised, lowered, requests, errors}

sum_of-append : (f : Measurement → ℕ) (m n : Measured) → sum_of f (m ++ n) ≡ sum_of f m + sum_of f n
sum_of-append f [] n = omega arith
sum_of-append f (x ∷ m) n = omega (arith, sum_of-append f m n)

sum_of-measure :
    (f : Measurement → ℕ) (i : Instrument) (a : ℤ) (attrs : List Attribute) (m : Measured)
    → sum_of f (measure i a attrs m)
      ≡ sum_of f m + f (record { instrument = i; amount = a; attributes = attrs })
sum_of-measure f i a attrs m = omega (arith, sum_of-append f m _)

-- What a step adds to the four sums, given the measurements before and behind it
pub record Adds (m m' : Measured) (up down counted failed : ℕ) : Type 0 where
  pub raised_by : raised m' ≡ raised m + up
  pub lowered_by : lowered m' ≡ lowered m + down
  pub requests_by : requests m' ≡ requests m + counted
  pub errors_by : errors m' ≤ errors m + failed

pub Adds-measure :
    (i : Instrument) (a : ℤ) (attrs : List Attribute) (m : Measured)
    → Adds m
        (measure i a attrs m)
        (raised (measure i a attrs []))
        (lowered (measure i a attrs []))
        (requests (measure i a attrs []))
        (errors (measure i a attrs []))
Adds-measure i a attrs m = record {
  raised_by = sum_of-append _ m _;
  lowered_by = sum_of-append _ m _;
  requests_by = sum_of-append _ m _;
  errors_by = omega (arith, sum_of-append _ m (measure i a attrs []));
}

Adds-then :
    {m n k : Measured} {u d c f u' d' c' f' : ℕ}
    → Adds m n u d c f
    → Adds n k u' d' c' f'
    → Adds m k (u + u') (d + d') (c + c') (f + f')
Adds-then x y = record {
  raised_by = omega (arith, x.raised_by, y.raised_by);
  lowered_by = omega (arith, x.lowered_by, y.lowered_by);
  requests_by = omega (arith, x.requests_by, y.requests_by);
  errors_by = omega (arith, x.errors_by, y.errors_by);
}

Adds-record_http_request :
    (r : Served) (duration : ℕ) (m : Measured)
    → Adds m (record_http_request r.method r.path r.status_code duration m) 0 0 1 0
unfolding record_http_request
Adds-record_http_request r duration m =
    Adds-then (Adds-measure http_request_duration _ _ m) (Adds-measure http_request_count _ _ _)

Adds-record_error : (what : String) (m : Measured) → Adds m (record_error what m) 0 0 0 1
unfolding record_error
Adds-record_error what m = Adds-measure error_count _ _ m

Adds-or_less : {m n : Measured} {u d c : ℕ} → Adds m n u d c 0 → Adds m n u d c 1
Adds-or_less x = record {
  raised_by = x.raised_by;
  lowered_by = x.lowered_by;
  requests_by = x.requests_by;
  errors_by = omega (arith, x.errors_by);
}

pub Adds-record_response :
    (r : Served) (duration : ℕ) (m : Measured) → Adds m (record_response r duration m) 0 0 1 1
unfolding record_response
Adds-record_response r duration m =
    let counted = Adds-record_http_request r duration m in
    elim (Bool-cases (leb 400 r.status_code)) [
      | inr fine ↦ rw fine (Adds-or_less counted)
      | inl failed ↦ elim (Bool-cases (leb 500 r.status_code)) [
        | inl server ↦
            rw (failed, server) (Adds-then counted (Adds-record_error "http_server_error" _))
        | inr client ↦
            rw (failed, client) (Adds-then counted (Adds-record_error "http_client_error" _))
      ]
    ]
