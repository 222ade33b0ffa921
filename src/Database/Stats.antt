-- ===== src/Database/Stats.antt =====
-- The statistics of api_logs (GetAPILogStats and GetAPILogStatsByEndpoint of the query files),
-- without the average duration, which is a floating-point number.
use e5renew.Prelude.{
  ℕ, ◌+◌, Bool, true, false, not, ◌&&◌, List, [], ◌∷◌, leb, if◌then◌else◌, length,
}
use e5renew.Prelude.Int.{ℤ, pos, negsuc}
use e5renew.Text.{Bytes, codes}
use e5renew.Engine.{Engine, mysql, postgres, unknown}
use e5renew.Failure.{Error, other, Result, ok, err, Exec, ◌>>◌}
use e5renew.Database.{Db, Collation, ApiLog, send, keep, order_by}

-- A Go `any`, of the types that matter here. The drivers hand out integers as int64.
pub data Any : Type 0 where
  nil : Any
  int32 : ℤ → Any
  int64 : ℤ → Any

pub record GetApiLogStatsRow : Type 0 where
  pub total_requests : ℕ
  pub successful_requests : ℕ
  pub failed_requests : ℕ
  pub min_duration_ms : Any
  pub max_duration_ms : Any

abbrev at_most : ℤ → ℤ → Bool
at_most (pos m) (pos n) = leb m n
at_most (pos m) (negsuc n) = false
at_most (negsuc m) (pos n) = true
at_most (negsuc m) (negsuc n) = leb n m

abbrev smallest : ℤ → List ApiLog → ℤ
smallest z [] = z
smallest z (l ∷ ls) = smallest (if at_most z l.duration_ms then z else l.duration_ms) ls

abbrev largest : ℤ → List ApiLog → ℤ
largest z [] = z
largest z (l ∷ ls) = largest (if at_most z l.duration_ms then l.duration_ms else z) ls

abbrev null_average : Error
null_average =
    other (codes "sql: Scan error on column index 3: converting NULL to float64 is unsupported")

unfoldable pub counts_of : ApiLog → List ApiLog → GetApiLogStatsRow
unfolding keep
counts_of l ls = record {
  total_requests = length (l ∷ ls);
  successful_requests = length (keep (λ (x : ApiLog). x.success) (l ∷ ls));
  failed_requests = length (keep (λ (x : ApiLog). not x.success) (l ∷ ls));
  min_duration_ms = int64 (smallest l.duration_ms ls);
  max_duration_ms = int64 (largest l.duration_ms ls);
}

-- The average of no row is NULL, which Scan does not put into the float64 of these queries.
postgres_summary : List ApiLog → Result GetApiLogStatsRow
postgres_summary [] = err null_average
postgres_summary (l ∷ ls) = ok (counts_of l ls)

-- Here it is scanned into an `any`, which asFloat64 reads as 0.
mysql_summary : List ApiLog → Result GetApiLogStatsRow
mysql_summary [] = ok (record {
  total_requests = 0;
  successful_requests = 0;
  failed_requests = 0;
  min_duration_ms = nil;
  max_duration_ms = nil;
})
mysql_summary (l ∷ ls) = ok (counts_of l ls)

-- The store that the engine leads to: any but MySQL to that of PostgreSQL
unfoldable pub summary : Engine → List ApiLog → Result GetApiLogStatsRow
unfolding postgres_summary mysql_summary
summary postgres rows = postgres_summary rows
summary (unknown name) rows = postgres_summary rows
summary mysql rows = mysql_summary rows

abbrev pub in_range : ℕ → ℕ → ApiLog → Bool
in_range start end l = leb start l.request_time && leb l.request_time end

unfoldable pub get_api_log_stats : Engine → ℕ → ℕ → Exec Db GetApiLogStatsRow
unfolding send keep summary
get_api_log_stats engine start end = do
  send
  λ db. (summary engine (keep (in_range start end) db.api_logs), db)

pub record GetApiLogStatsByEndpointRow : Type 0 where
  pub api_endpoint : Bytes
  pub total_requests : ℕ
  pub successful_requests : ℕ
  pub failed_requests : ℕ

module _ (c : Collation) where
  -- GROUP BY api_endpoint: a group is counted where it is met first.
  unfoldable pub count_in :
      ApiLog → List GetApiLogStatsByEndpointRow → List GetApiLogStatsByEndpointRow
  count_in l [] =
      record {
        api_endpoint = l.api_endpoint;
        total_requests = 1;
        successful_requests = if l.success then 1 else 0;
        failed_requests = if l.success then 0 else 1;
      }
      ∷ []
  count_in l (g ∷ gs) =
      let rest = count_in l gs in
      if c.same l.api_endpoint g.api_endpoint
      then record g {
        total_requests = g.total_requests + 1;
        successful_requests = g.successful_requests + (if l.success then 1 else 0);
        failed_requests = g.failed_requests + (if l.success then 0 else 1);
      }
        ∷ gs
      else g ∷ rest

  unfoldable pub group_by_endpoint : List ApiLog → List GetApiLogStatsByEndpointRow
  unfolding count_in
  group_by_endpoint [] = []
  group_by_endpoint (l ∷ ls) = count_in l (group_by_endpoint ls)

  unfoldable pub get_api_log_stats_by_endpoint : ℕ → ℕ → Exec Db (List GetApiLogStatsByEndpointRow)
  unfolding send keep order_by group_by_endpoint
  get_api_log_stats_by_endpoint start end = do
    send
    λ db. (
      ok (
          order_by (λ (a b : GetApiLogStatsByEndpointRow). leb b.total_requests a.total_requests)
            (group_by_endpoint (keep (in_range start end) db.api_logs))),
      db,
    )
