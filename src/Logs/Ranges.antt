-- ===== src/Logs/Ranges.antt =====
-- The beginning of the time range that a request names.
use e5renew.Prelude.{ℕ, ◌-◌, ◌≡◌, refl, inl, inr, false, Bool-cases}
use e5renew.Text.{Bytes, codes, bytes_eq}
use e5renew.Text.Equality.{bytes_eq_iff}
use e5renew.Logs.{start_time}

-- The time at which a named range before `now` begins, in nanoseconds; 24 hours before it for another
-- name, or none
pub data Since (now : ℕ) (name : Bytes) (start : ℕ) : Type 0 where
  last_hour : name ≡ codes "1h" → start ≡ now - 3_600_000_000_000 → Since now name start
  last_6_hours : name ≡ codes "6h" → start ≡ now - 21_600_000_000_000 → Since now name start
  last_24_hours : name ≡ codes "24h" → start ≡ now - 86_400_000_000_000 → Since now name start
  last_7_days : name ≡ codes "7d" → start ≡ now - 604_800_000_000_000 → Since now name start
  last_30_days : name ≡ codes "30d" → start ≡ now - 2_592_000_000_000_000 → Since now name start
  otherwise :
      bytes_eq name (codes "1h") ≡ false
      → bytes_eq name (codes "6h") ≡ false
      → bytes_eq name (codes "24h") ≡ false
      → bytes_eq name (codes "7d") ≡ false
      → bytes_eq name (codes "30d") ≡ false
      → start ≡ now - 86_400_000_000_000
      → Since now name start

pub start_time-Since : (name : Bytes) (now : ℕ) → Since now name (start_time name now)
unfolding start_time
start_time-Since name now = elim (Bool-cases (bytes_eq name (codes "1h"))) [
  | inl a ↦ rw a (last_hour ((bytes_eq_iff name _).0 a) refl)
  | inr a ↦ elim (Bool-cases (bytes_eq name (codes "6h"))) [
    | inl b ↦ rw (a, b) (last_6_hours ((bytes_eq_iff name _).0 b) refl)
    | inr b ↦ elim (Bool-cases (bytes_eq name (codes "24h"))) [
      | inl d ↦ rw (a, b, d) (last_24_hours ((bytes_eq_iff name _).0 d) refl)
      | inr d ↦ elim (Bool-cases (bytes_eq name (codes "7d"))) [
        | inl e ↦ rw (a, b, d, e) (last_7_days ((bytes_eq_iff name _).0 e) refl)
        | inr e ↦ elim (Bool-cases (bytes_eq name (codes "30d"))) [
          | inl f ↦ rw (a, b, d, e, f) (last_30_days ((bytes_eq_iff name _).0 f) refl)
          | inr f ↦ rw (a, b, d, e, f) (otherwise a b d e f refl)
        ]
      ]
    ]
  ]
]
