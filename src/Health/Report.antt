-- ===== src/Health/Report.antt =====
-- When the report is good, bad or neither.
use e5renew.Prelude.{◌≡◌, refl, ◌↔◌, Bool, true, false, ◌&&◌, ◌||◌, List, [], ◌∷◌, arith, all, any}
use e5renew.Failure.{Result, ok, err, is_ok}
use e5renew.Health.{
  HealthStatus, up, down, unknown, is_up, is_down, weigh, overall_status, check_database,
  check_issuer, health, ready,
}

weigh-is_down :
    (overall : HealthStatus) (checks : List HealthStatus)
    → is_down (weigh overall checks) ≡ (is_down overall || any is_down checks)
unfolding weigh
weigh-is_down up [] = refl
weigh-is_down down [] = refl
weigh-is_down unknown [] = refl
weigh-is_down up (down ∷ checks) = refl
weigh-is_down down (down ∷ checks) = refl
weigh-is_down unknown (down ∷ checks) = refl
weigh-is_down up (unknown ∷ checks) = weigh-is_down unknown checks
weigh-is_down down (unknown ∷ checks) = weigh-is_down down checks
weigh-is_down unknown (unknown ∷ checks) = weigh-is_down unknown checks
weigh-is_down up (up ∷ checks) = weigh-is_down up checks
weigh-is_down down (up ∷ checks) = weigh-is_down down checks
weigh-is_down unknown (up ∷ checks) = weigh-is_down unknown checks

weigh-is_up :
    (overall : HealthStatus) (checks : List HealthStatus)
    → is_up (weigh overall checks) ≡ (is_up overall && all is_up checks)
unfolding weigh
weigh-is_up up [] = refl
weigh-is_up down [] = refl
weigh-is_up unknown [] = refl
weigh-is_up up (down ∷ checks) = refl
weigh-is_up down (down ∷ checks) = refl
weigh-is_up unknown (down ∷ checks) = refl
weigh-is_up up (unknown ∷ checks) = weigh-is_up unknown checks
weigh-is_up down (unknown ∷ checks) = weigh-is_up down checks
weigh-is_up unknown (unknown ∷ checks) = weigh-is_up unknown checks
weigh-is_up up (up ∷ checks) = weigh-is_up up checks
weigh-is_up down (up ∷ checks) = weigh-is_up down checks
weigh-is_up unknown (up ∷ checks) = weigh-is_up unknown checks

-- Whatever the checks and their order, the overall status is down just if a check is down, and up
-- just if all are up.
pub overall_status_lem :
    (checks : List HealthStatus)
    → (is_down (overall_status checks) ≡ any is_down checks)
      × (is_up (overall_status checks) ≡ all is_up checks)
unfolding overall_status
overall_status_lem checks = (weigh-is_down up checks, weigh-is_up up checks)

-- Health answers 503 just if the ping of the database or the discovery of the issuer fails, Ready
-- just if the ping fails; the report is up just if both work and both redirect URLs are good.
health_lem :
    (ping discovery : Result (Unit {0})) (redirect user_token_redirect : Bool)
    → (((health ping discovery redirect user_token_redirect).1 ≡ 503)
        ↔ (is_ok ping && is_ok discovery ≡ false))
      × ((ready ping ≡ 503) ↔ (is_ok ping ≡ false))
      × (is_up (health ping discovery redirect user_token_redirect).0
          ≡ (is_ok ping && is_ok discovery && (redirect && user_token_redirect)))
unfolding health ready check_database check_issuer overall_status weigh
health_lem (err e) (err e') r u = (ground arith, ground arith, refl)
health_lem (err e) (ok done) true true = (ground arith, ground arith, refl)
health_lem (err e) (ok done) true false = (ground arith, ground arith, refl)
health_lem (err e) (ok done) false u = (ground arith, ground arith, refl)
health_lem (ok done) (err e) r u = (ground arith, ground arith, refl)
health_lem (ok done) (ok found) true true = (ground arith, ground arith, refl)
health_lem (ok done) (ok found) true false = (ground arith, ground arith, refl)
health_lem (ok done) (ok found) false u = (ground arith, ground arith, refl)
