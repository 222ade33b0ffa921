-- ===== src/Telemetry/Balance.antt =====
-- The gauge of the active requests is what the server serves, and no request is counted twice.
use e5renew.Prelude.{
  ℕ, ◌+◌, ◌≤◌, ◌≡◌, refl, ap, arith, true, List, [], ◌∷◌, ◌++◌, length, length-append,
  if◌then◌else◌,
}
use e5renew.Prelude.Int.{pos, negsuc}
use e5renew.Telemetry.{http_active_requests, record_http_active_request}
use e5renew.Telemetry.Requests.{
  Served, Server, Step, Reachable, fresh, onwards, raised, lowered, requests, errors, recorded_of,
  begin, write_header, respond, leave,
}
use e5renew.Telemetry.Sums.{Adds-measure, Adds-record_response}

-- The sums of a server that is reachable
record IsBalanced (s : Server) : Type 0 where
  gauge : raised s.measured ≡ lowered s.measured + length s.served
  begun_by : raised s.measured ≡ s.begun
  counted : requests s.measured ≤ recorded_of s.served + lowered s.measured
  failed : errors s.measured ≤ requests s.measured

recorded_of-append :
    (rs qs : List Served) → recorded_of (rs ++ qs) ≡ recorded_of rs + recorded_of qs
recorded_of-append [] qs = omega arith
recorded_of-append (r ∷ rs) qs = omega (arith, recorded_of-append rs qs)

abbrev weight : Served → ℕ
weight r = if r.recorded then 1 else 0

weight_least : (r : Served) → weight r ≤ 1
weight_least r = ground arith

length_around :
    (before behind : List Served) (r : Served)
    → length (before ++ r ∷ behind) ≡ length before + length behind + 1
length_around before behind r = omega (arith, length-append before (r ∷ behind))

recorded_around :
    (before behind : List Served) (r : Served)
    → recorded_of (before ++ r ∷ behind) ≡ recorded_of before + recorded_of behind + weight r
recorded_around before behind r = omega (arith, recorded_of-append before (r ∷ behind))

-- One request of those that are served is replaced by itself with other fields.
record Replaces (served served' : List Served) (recorded : ℕ) : Type 0 where
  same_length : length served' ≡ length served
  recorded_by : recorded_of served' ≡ recorded_of served + recorded

replacing :
    (served before behind : List Served) (r q : Served) (n : ℕ)
    → served ≡ before ++ r ∷ behind
    → weight q ≡ weight r + n
    → Replaces served (before ++ q ∷ behind) n
replacing served before behind r q n e w = record {
  same_length =
      omega (arith, ap length e, length_around before behind r, length_around before behind q);
  recorded_by = omega (
    arith,
    ap recorded_of e,
    recorded_around before behind r,
    recorded_around before behind q,
    w,
  );
}

Step-IsBalanced : {s t : Server} → Step s t → IsBalanced s → IsBalanced t
unfolding record_http_active_request
Step-IsBalanced {s} (begin method path) b =
    let a = Adds-measure http_active_requests (pos 1) [] s.measured in
    record {
      gauge = omega (arith, a.raised_by, a.lowered_by, b.gauge);
      begun_by = omega (arith, a.raised_by, b.begun_by);
      counted = omega (arith, a.requests_by, a.lowered_by, b.counted);
      failed = omega (arith, a.errors_by, a.requests_by, b.failed);
    }
Step-IsBalanced {s} (write_header before behind r code e unanswered) b =
    let x =
      replacing s.served before behind r (record r { status_code = code }) 0 e (omega arith) in
    record {
      gauge = omega (arith, x.same_length, b.gauge);
      begun_by = b.begun_by;
      counted = omega (arith, x.recorded_by, b.counted);
      failed = b.failed;
    }
Step-IsBalanced {s} (respond before behind r duration e unanswered) b =
    let a = Adds-record_response r duration s.measured in
    let x =
      replacing s.served before behind r (record r { recorded = true }) 1 e
        (ground (arith, unanswered)) in
    record {
      gauge = omega (arith, a.raised_by, a.lowered_by, x.same_length, b.gauge);
      begun_by = omega (arith, a.raised_by, b.begun_by);
      counted = omega (arith, a.requests_by, a.lowered_by, x.recorded_by, b.counted);
      failed = omega (arith, a.errors_by, a.requests_by, b.failed);
    }
Step-IsBalanced {s} (leave before behind r e) b =
    let a = Adds-measure http_active_requests (negsuc 0) [] s.measured in
    record {
      gauge = omega (
        arith,
        a.raised_by,
        a.lowered_by,
        ap length e,
        length_around before behind r,
        length-append before behind,
        b.gauge,
      );
      begun_by = omega (arith, a.raised_by, b.begun_by);
      counted = omega (
        arith,
        a.requests_by,
        a.lowered_by,
        ap recorded_of e,
        recorded_around before behind r,
        recorded_of-append before behind,
        weight_least r,
        b.counted,
      );
      failed = omega (arith, a.errors_by, a.requests_by, b.failed);
    }

Reachable-IsBalanced : {s : Server} → Reachable s → IsBalanced s
Reachable-IsBalanced fresh = record {
  gauge = omega arith;
  begun_by = refl;
  counted = omega arith;
  failed = omega arith;
}
Reachable-IsBalanced (onwards run step) = Step-IsBalanced step (Reachable-IsBalanced run)

recorded_least : (rs : List Served) → recorded_of rs ≤ length rs
recorded_least [] = omega arith
recorded_least (r ∷ rs) = omega (arith, weight_least r, recorded_least rs)

-- However the requests of a server begin, write their headers, return, panic and end in between each
-- other, the gauge of the active requests has been raised once for each that has begun, and lowered
-- for all but those that are being served, so that its value is their number and never negative; not
-- more requests have been counted than have begun, and not more errors than requests.
pub active_requests_lem :
    {s : Server}
    → Reachable s
    → (raised s.measured ≡ lowered s.measured + length s.served)
      × (raised s.measured ≡ s.begun)
      × (requests s.measured ≤ s.begun)
      × (errors s.measured ≤ requests s.measured)
active_requests_lem {s} run =
    let b = Reachable-IsBalanced run in
    (
      b.gauge,
      b.begun_by,
      omega (arith, b.counted, b.gauge, b.begun_by, recorded_least s.served),
      b.failed,
    )
