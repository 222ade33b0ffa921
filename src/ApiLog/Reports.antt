-- ===== src/ApiLog/Reports.antt =====
-- The statistics: what the counts say, and what becomes of the shortest and the longest duration.
use e5renew.Prelude.{ℕ, ◌+◌, ◌≡◌, refl, Bool, not, List, [], ◌∷◌, arith, length}
use e5renew.Prelude.Int.{pos}
use e5renew.Text.{codes}
use e5renew.Failure.{Error, wrap, ok, err}
use e5renew.Database.{Db, ApiLog, send, keep}
use e5renew.Database.Statements.{IsHealthy, outcome_healthy}
use e5renew.Database.Stats
use e5renew.Engine.{Engine, mysql, postgres, unknown}
use e5renew.Database.Stats.{in_range, summary, counts_of, GetApiLogStatsRow}
use e5renew.ApiLog.{ApiLogStats, get_api_log_stats}

length_partition :
    {A : Type 0} (p : A → Bool) (xs : List A)
    → length xs ≡ length (keep p xs) + length (keep (λ x. not (p x)) xs)
unfolding keep
length_partition p [] = omega arith
length_partition p (x ∷ xs) = ground (arith, length_partition p xs)

-- The counts of a report on `rows`.
abbrev pub IsReportOn : List ApiLog → ApiLogStats → Type 0
IsReportOn rows stats =
    (stats.total_requests ≡ length rows)
    × (stats.successful_requests ≡ length (keep (λ (l : ApiLog). l.success) rows))
    × (stats.total_requests ≡ stats.successful_requests + stats.failed_requests)

abbrev pub HasReport : Engine → ℕ → ℕ → Db → Type 0
HasReport engine start end db =
    (stats : ApiLogStats) × ((get_api_log_stats engine start end db).0 ≡ ok stats)
    × IsReportOn (keep (in_range start end) db.api_logs) stats
    × (stats.min_duration_ms ≡ pos 0)
    × (stats.max_duration_ms ≡ pos 0)

abbrev pub LacksReport : Engine → ℕ → ℕ → Db → Type 0
LacksReport engine start end db =
    (e : Error) × ((get_api_log_stats engine start end db).0
      ≡ err (wrap (codes "failed to get API log stats") e))

-- PostgreSQL, which every engine but MySQL leads to, reports on no empty time range.
abbrev pub CanReport : Engine → List ApiLog → Type 0
CanReport mysql rows = Unit
CanReport _ [] = ⊥
CanReport _ (l ∷ ls) = Unit

summary_of_rows :
    (engine : Engine) (l : ApiLog) (ls : List ApiLog)
    → summary engine (l ∷ ls) ≡ ok (counts_of l ls)
unfolding summary
summary_of_rows mysql l ls = refl
summary_of_rows postgres l ls = refl
summary_of_rows (unknown name) l ls = refl

module _ (start end : ℕ) (db : Db) (h : IsHealthy db) where
  of_rows :
      (engine : Engine) (l : ApiLog) (ls : List ApiLog)
      → keep (in_range start end) db.api_logs ≡ l ∷ ls
      → HasReport engine start end db
  unfolding get_api_log_stats Stats.get_api_log_stats counts_of send
  of_rows engine l ls eq =
      rw (outcome_healthy db.faults h, eq, summary_of_rows engine l ls)
        (_, refl, (refl, refl, length_partition (λ (x : ApiLog). x.success) (l ∷ ls)), refl, refl)

  of_nothing : keep (in_range start end) db.api_logs ≡ [] → HasReport mysql start end db
  unfolding get_api_log_stats Stats.get_api_log_stats summary send keep
  of_nothing eq =
      rw (outcome_healthy db.faults h, eq) (_, refl, (refl, refl, omega arith), refl, refl)

  by_rows :
      (engine : Engine) (rows : List ApiLog)
      → keep (in_range start end) db.api_logs ≡ rows
      → (CanReport engine rows → HasReport engine start end db)
        × (¬ CanReport engine rows → LacksReport engine start end db)
  unfolding get_api_log_stats Stats.get_api_log_stats summary send
  by_rows mysql [] eq = (λ can. of_nothing eq, λ cannot. absurd (cannot tt))
  by_rows mysql (l ∷ ls) eq = (λ can. of_rows mysql l ls eq, λ cannot. absurd (cannot tt))
  by_rows postgres [] eq =
      (λ can. absurd can, λ cannot. rw (outcome_healthy db.faults h, eq) (_, refl))
  by_rows postgres (l ∷ ls) eq = (λ can. of_rows postgres l ls eq, λ cannot. absurd (cannot tt))
  by_rows (unknown name) [] eq =
      (λ can. absurd can, λ cannot. rw (outcome_healthy db.faults h, eq) (_, refl))
  by_rows (unknown name) (l ∷ ls) eq =
      (λ can. of_rows (unknown name) l ls eq, λ cannot. absurd (cannot tt))

-- Where the statement does not fail, a time range with a logged call, or any time range on MySQL,
-- has a report whose counts are those of its rows and add up, and whose shortest and longest
-- duration are 0 whatever the calls took; on any engine but MySQL a time range without a logged call
-- gives an error and no report.
pub get_api_log_stats_lem :
    (engine : Engine) (start end : ℕ) (db : Db)
    → IsHealthy db
    → (CanReport engine (keep (in_range start end) db.api_logs) → HasReport engine start end db)
      × (¬ CanReport engine (keep (in_range start end) db.api_logs)
          → LacksReport engine start end db)
get_api_log_stats_lem engine start end db h =
    by_rows start end db h engine (keep (in_range start end) db.api_logs) refl
