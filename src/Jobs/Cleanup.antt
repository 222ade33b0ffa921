-- ===== src/Jobs/Cleanup.antt =====
-- Which entries of the log the cleanup keeps.
use e5renew.Prelude.{
  ℕ, zero, suc, ◌+◌, ◌-◌, ◌*◌, ◌≤◌, ◌≡◌, refl, sym, ap, Bool, not, List, [], ◌∷◌, arith, ltb, leb,
}
use e5renew.Prelude.Int.{ℤ, pos, negsuc, neg, to_int64, to_int64-neg}
use e5renew.Failure.{ok}
use e5renew.Database.{Db, ApiLog, keep, behind}
use e5renew.Database.Statements.{IsHealthy}
use e5renew.Database.Pages.{delete_old_api_logs_healthy}
use e5renew.Tokens.{add_duration}
use e5renew.ApiLog.{delete_old_api_logs}
use e5renew.Jobs.{retention_days, day, cleanup}

-- The retention that a configured number of days means: 30 days for a number that is not positive.
abbrev pub Means : ℤ → ℕ → Type 0
Means (pos zero) d = d ≡ 30
Means (pos (suc n)) d = d ≡ suc n
Means (negsuc n) d = d ≡ 30

retention_days-Means : (days : ℤ) (d : ℕ) → Means days d → retention_days days ≡ d
unfolding retention_days
retention_days-Means (pos zero) d h = sym h
retention_days-Means (pos (suc n)) d h = ground (arith, h)
retention_days-Means (negsuc n) d h = sym h

cutoff : (now d : ℕ) → d ≤ 106751 → add_duration now (to_int64 (neg (d * day))) ≡ now - d * day
unfolding add_duration
cutoff now d h = rw (to_int64-neg (d * day) (omega arith)) (ground arith)

keep-cong :
    (p q : ApiLog → Bool) → ((l : ApiLog) → p l ≡ q l) → (ls : List ApiLog) → keep p ls ≡ keep q ls
unfolding keep
keep-cong p q h [] = refl
keep-cong p q h (l ∷ ls) = rw (h l, keep-cong p q h ls) refl

kept_test :
    (now d : ℕ) (l : ApiLog)
    → not (ltb l.request_time (now - d * day)) ≡ leb now (l.request_time + d * day)
kept_test now d l = ground arith

-- When the database answers and the retention is at most 106751 days, about 292 years, the cleanup
-- succeeds, and keeps exactly the entries that are at most the retention old, in their order.
pub cleanup_lem :
    (days : ℤ) (d now : ℕ) (db : Db)
    → IsHealthy db
    → Means days d
    → d ≤ 106751
    → cleanup days now db ≡ (
      ok tt,
      record (behind db) {
        api_logs = keep (λ (l : ApiLog). leb now (l.request_time + d * day)) db.api_logs;
      },
    )
unfolding cleanup delete_old_api_logs
cleanup_lem days d now db h means fits =
    rw
      (
        retention_days-Means days d means,
        cutoff now d fits,
        delete_old_api_logs_healthy (now - d * day) db h,
      )
      (ap (λ (ls : List ApiLog). (ok tt, record (behind db) { api_logs = ls }))
        (keep-cong (λ (l : ApiLog). not (ltb l.request_time (now - d * day)))
          (λ (l : ApiLog). leb now (l.request_time + d * day)) (kept_test now d) db.api_logs))
