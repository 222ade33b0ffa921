-- ===== src/Examples/OfLogs.antt =====
-- The log of calls, the mail activity and the jobs.
use e5renew.Prelude.{
  ℕ, ◌+◌, ◌*◌, ◌≡◌, refl, true, false, none, some, List, [], ◌∷◌, ◌++◌, arith, leb,
}
use e5renew.Prelude.Int.{pos, to_int32}
use e5renew.Text.{Bytes, codes}
use e5renew.Failure.{Error, ok, err, wrap, is_ok}
use e5renew.Database.{Db, ApiLog, outcome, behind, keep, user_is}
use e5renew.Database.Pages.{IsPageOf}
use e5renew.Database.Statements.{IsHealthy}
use e5renew.Engine.{postgres}
use e5renew.Database.Stats.{in_range}
use e5renew.Tokens.{get_all_user_ids}
use e5renew.ApiLog.{
  ApiLogEntry, log_api_call, get_api_logs, get_api_logs_by_time_range, get_api_logs_by_user,
  get_api_logs_by_job_type,
}
use e5renew.ApiLog.Records.{FitsInt32, IsRowOf, log_api_call_lem, get_api_logs-IsPageOf}
use e5renew.ApiLog.Reports.{CanReport, HasReport, LacksReport, get_api_log_stats_lem}
use e5renew.Mail.{graph_entry, process_user_mail_activity, process_all_user_mail_activity}
use e5renew.Mail.Run.{stop, next, AreEntries, Verdict, Run-AreEntries, process_all-Run}
use e5renew.Jobs.{Users, counted, cleanup, day, get_users_and_messages_client_scope}
use e5renew.Jobs.Cleanup.{cleanup_lem}
use e5renew.Jobs.Call.{is_panic, look, last_of, users_that_came, Logs, client_scope_lem}
use e5renew.Logs.{LogsRequest}
use e5renew.Home.{trigger_mail_api}
use e5renew.Home.Trigger.{Answer, trigger_lem}
use e5renew.Repository
use e5renew.Examples.Data.{gcm, bytewise, ann, bob, db, info, claims, site, outside, world}

abbrev call : ApiLogEntry
call = graph_entry {0} bob 100 200 (ok tt)

call-FitsInt32 : FitsInt32 call
call-FitsInt32 = unfold graph_entry to_int32 in (refl, refl, refl, refl)

log_api_call_lem_example :
    (IsHealthy db
      → FitsInt32 call
      → (row : ApiLog) × IsRowOf call row
        × ((log_api_call call db).0 ≡ ok tt)
        × ((log_api_call call db).1.api_logs ≡ db.api_logs ++ (row ∷ [])))
    × ((e : Error)
        → outcome db.faults ≡ err e
        → log_api_call call db ≡ (err (wrap (codes "failed to log API call") e), behind db))
log_api_call_lem_example = log_api_call_lem call db

get_api_logs-IsPageOf_example :
    IsPageOf (λ l. true) 50 0 db (get_api_logs (pos 50) (pos 0) db)
    × IsPageOf (in_range 80 100) 50 0 db (get_api_logs_by_time_range 80 100 (pos 50) (pos 0) db)
    × IsPageOf
        (λ l. user_is bytewise l.user_id (some bob))
        50
        0
        db
        (get_api_logs_by_user bytewise bob (pos 50) (pos 0) db)
    × IsPageOf
        (λ l. bytewise.same l.job_type ann)
        50
        0
        db
        (get_api_logs_by_job_type bytewise ann (pos 50) (pos 0) db)
get_api_logs-IsPageOf_example = get_api_logs-IsPageOf bytewise 80 100 bob ann 50 0 db tt

get_api_log_stats_lem_example :
    (CanReport postgres (keep (in_range 80 100) db.api_logs) → HasReport postgres 80 100 db)
    × (¬ CanReport postgres (keep (in_range 80 100) db.api_logs) → LacksReport postgres 80 100 db)
get_api_log_stats_lem_example = get_api_log_stats_lem postgres 80 100 db tt

Run-AreEntries_example :
    (es : List ApiLogEntry) × AreEntries
      (bob ∷ [])
      ((process_user_mail_activity gcm bytewise outside bob world).0 ∷ [])
      es
    × ((process_user_mail_activity gcm bytewise outside bob world).1.pending ≡ [] ++ es)
Run-AreEntries_example =
    Run-AreEntries gcm bytewise outside world (bob ∷ [])
      ((process_user_mail_activity gcm bytewise outside bob world).0 ∷ [])
      (process_user_mail_activity gcm bytewise outside bob world).1
      (next world bob [] [] _ (stop _)) (λ u. refl)

process_all-Run_example :
    ((us : List Bytes) (db' : Db)
      → get_all_user_ids bytewise world.db ≡ (ok us, db')
      → Verdict gcm bytewise outside us
          (record world { db = db' })
          (process_all_user_mail_activity gcm bytewise outside world))
    × ((e : Error) (db' : Db)
        → get_all_user_ids bytewise world.db ≡ (err e, db')
        → process_all_user_mail_activity gcm bytewise outside world
          ≡ (err (wrap (codes "failed to get user IDs") e), record world { db = db' }))
process_all-Run_example = process_all-Run gcm bytewise outside world

cleanup_lem_example : cleanup (pos 0) 5_000_000_000_000_000 db ≡ (
  ok tt,
  record (behind db) {
    api_logs =
        keep (λ (l : ApiLog). leb 5_000_000_000_000_000 (l.request_time + 30 * day)) db.api_logs;
  },
)
cleanup_lem_example = cleanup_lem (pos 0) 30 5_000_000_000_000_000 db tt refl (omega arith)

-- A user with two messages, one without a name, and a nil user
abbrev response : Users
response = ok (
    some (
      some (record { display_name = some ann; messages = 2 })
      ∷ some (record { display_name = none; messages = 1 })
      ∷ none
      ∷ []))

client_scope_lem_example :
    (false ≡ false
      → (entry : ApiLogEntry) × ((get_users_and_messages_client_scope
            (ok tt)
            (ok tt)
            response
            100
            200).0
          ≡ some entry)
        × Logs true entry)
    × (false ≡ true
        → (get_users_and_messages_client_scope (ok tt) (ok tt) response 100 200).0 ≡ none)
    × (is_panic (get_users_and_messages_client_scope (ok tt) (ok tt) response 100 200).1 ≡ true)
    × ((result : List (Bytes × ℕ))
        → (get_users_and_messages_client_scope (ok tt) (ok tt) response 100 200).1 ≡ counted result
        → (name : Bytes) → look name result ≡ last_of name none (users_that_came response))
client_scope_lem_example = client_scope_lem response 100 200

abbrev second_page : LogsRequest
second_page = record { page = codes "2"; job_type = []; user_id = []; time_range = codes "7d" }

trigger_lem_example :
    Answer gcm bytewise outside info site.session world claims refl refl
      (is_ok (Repository.get_by_user_id bytewise ann world.db).0)
      (trigger_mail_api gcm bytewise outside info true site.session world).0
trigger_lem_example = trigger_lem gcm bytewise outside info site.session world claims refl refl
