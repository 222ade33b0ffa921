-- ===== src/Sql/Times.antt =====
-- Times that a TIMESTAMP column keeps as they are, and the lists of arguments that hold only such.
use e5renew.Prelude.{ℕ, ◌%◌, ◌≤◌, ◌≡◌, refl, ap, true, List, [], ◌∷◌, map, arith}
use e5renew.Sql.{
  Value, time, kept_time, time_fits, kept_value, value_fits, all_fit, second, first_timestamp,
  last_timestamp,
}

-- Whole seconds from 1970-01-01 00:00:01 to 2038-01-19 03:14:07
abbrev pub IsTimestamp : ℕ → Type 0
IsTimestamp t = (t % second ≡ 0) × (first_timestamp ≤ t) × (t ≤ last_timestamp)

kept_time-eq : (t : ℕ) → IsTimestamp t → kept_time t ≡ t
unfolding kept_time
kept_time-eq t (whole, low, high) = omega arith

fits : (t : ℕ) → IsTimestamp t → time_fits t ≡ true
unfolding time_fits
fits t h = rw (kept_time-eq t h) (ground (arith, h))

abbrev pub IsKept : Value → Type 0
IsKept v = (kept_value v ≡ v) × (value_fits v ≡ true)

pub data AreKept : List Value → Type 0 where
  no_value : AreKept []
  and_value : {v : Value} {vs : List Value} → IsKept v → AreKept vs → AreKept (v ∷ vs)

pub time-IsKept : (t : ℕ) → IsTimestamp t → IsKept (time t)
time-IsKept t h = (ap time (kept_time-eq t h), fits t h)

pub map-kept_value : (vs : List Value) → AreKept vs → map kept_value vs ≡ vs
map-kept_value _ no_value = refl
map-kept_value _ (and_value h hs) = λ i. h.0 i ∷ map-kept_value _ hs i

pub all_fit-AreKept : (vs : List Value) → AreKept vs → all_fit vs ≡ true
all_fit-AreKept _ no_value = refl
all_fit-AreKept _ (and_value h hs) = rw (h.1) (all_fit-AreKept _ hs)
