-- ===== src/Settlement.antt =====
-- Programs that leave events behind, seen through what the events leave open.
use e5renew.Prelude.{◌≡◌, refl, ap, ◌∙◌, Option, none, some, List, [], ◌∷◌, ◌++◌}
use e5renew.Failure.{Result, ok, err, Exec, emit, deferring, ◌>>◌}

-- `after_event` is what an event makes of what is open; `none` if it may not happen then.
module _ {E S : Type 0} (after_event : E → S → Option S) where
  abbrev and_then : Option S → E → Option S
  and_then none event = none
  and_then (some s) event = after_event event s

  -- What is open behind the events
  unfoldable pub settle : Option S → List E → Option S
  settle s [] = s
  settle s (event ∷ trace) = settle (and_then s event) trace

  settle-snoc :
      (s : Option S) (trace : List E) (event : E)
      → settle s (trace ++ event ∷ []) ≡ and_then (settle s trace) event
  unfolding settle
  settle-snoc s [] event = refl
  settle-snoc s (e ∷ trace) event = settle-snoc (and_then s e) trace event

  -- What is open in the end, from `initial`
  abbrev pub Leaves : S → List E → S → Type 0
  Leaves initial trace s = settle (some initial) trace ≡ some s

  pub emitted :
      (initial : S) (event : E) (trace : List E) (s : S)
      → Leaves initial trace s
      → settle (some initial) (trace ++ event ∷ []) ≡ after_event event s
  emitted initial event trace s h =
      settle-snoc (some initial) trace event ∙ ap (λ o. and_then o event) h

  -- What runs leaves as much open as it finds open.
  pub record Keeps (initial : S) (m : Exec (List E) (Unit {0})) : Type 0 where
    pub keeps : (trace : List E) (s : S) → Leaves initial trace s → Leaves initial (m trace).1 s

  then-Keeps :
      (initial : S) (n : Exec (List E) (Unit {0})) (r : Result (Unit {0})) (trace before : List E)
      (s : S)
      → Leaves initial trace s
      → Keeps initial n
      → Leaves initial (((λ _. (r, trace)) >> n) before).1 s
  then-Keeps initial n (ok a) trace before s h kn = kn.keeps trace s h
  then-Keeps initial n (err e) trace before s h kn = h

  pub Keeps-then :
      (initial : S) {m n : Exec (List E) (Unit {0})}
      → Keeps initial m
      → Keeps initial n
      → Keeps initial (m >> n)
  Keeps-then initial {m} {n} km kn = record {
    keeps =
        λ trace s h. then-Keeps initial n (m trace).0 (m trace).1 trace s (km.keeps trace s h) kn;
  }

  -- An event that neither opens nor closes anything
  abbrev pub IsNeutral : E → Type 0
  IsNeutral event = (s : S) → after_event event s ≡ some s

  pub Keeps-emit : (initial : S) (event : E) → IsNeutral event → Keeps initial (emit event)
  Keeps-emit initial event neutral = record {
    keeps = λ trace s h. emitted initial event trace s h ∙ neutral s;
  }

  -- What `event` closes is open before `m`, and `m` keeps it.
  pub deferring_closes :
      (initial : S) (opened : S → S) (event : E) (m : Exec (List E) (Unit {0}))
      → ((s : S) → after_event event (opened s) ≡ some s)
      → Keeps initial m
      → (trace : List E) (s : S) → Leaves initial trace (opened s)
      → Leaves initial (deferring event m trace).1 s
  deferring_closes initial opened event m closes km trace s h =
      emitted initial event (m trace).1 (opened s) (km.keeps trace (opened s) h) ∙ closes s
