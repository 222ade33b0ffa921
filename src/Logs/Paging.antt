-- ===== src/Logs/Paging.antt =====
-- What a page of the log shows.
use e5renew.Prelude.{◌⊎◌, none, ◌<◌, ℕ, ◌-◌, ◌*◌, ◌≡◌, Bool, true, false, some}
use e5renew.Text.{is_empty, decimal}
use e5renew.Database.{Db, Collation, ApiLog, user_is}
use e5renew.Database.Pages.{IsPage}
use e5renew.Engine.{Engine}
use e5renew.Database.Stats.{in_range}
use e5renew.Authorization.{Site}
use e5renew.Logs.Ranges.{Since}
use e5renew.Logs.{atoi, page_number, start_time, LogsRequest, LogsPage, LogsReply, rendered}

module _ (engine : Engine) (c : Collation) (r : LogsRequest) (now : ℕ) where
  -- The filter, given whether the job type and whether the user are left out
  abbrev filter : Bool → Bool → ApiLog → Bool
  filter false no_user l = c.same l.job_type r.job_type
  filter true false l = user_is c l.user_id (some r.user_id)
  filter true true l = in_range (start_time r.time_range now) now l

  -- The entries that the filters of the request ask for
  abbrev pub asked : ApiLog → Bool
  asked = filter (is_empty r.job_type) (is_empty r.user_id)

  abbrev skipped : ℕ
  skipped = (page_number r.page - 1) * 50

  -- Which entries a request selects. Only one of the filters counts: the job type if it is given, then
  -- the user, and the time range if neither is.
  pub data Selects : (ApiLog → Bool) → Type 0 where
    by_job_type : is_empty r.job_type ≡ false → Selects (λ l. c.same l.job_type r.job_type)
    by_user :
        is_empty r.job_type ≡ true
        → is_empty r.user_id ≡ false
        → Selects (λ l. user_is c l.user_id (some r.user_id))
    by_time_range :
        (start : ℕ)
        → is_empty r.job_type ≡ true
        → is_empty r.user_id ≡ true
        → Since now r.time_range start
        → Selects (λ l. in_range start now l)

  -- Which page the request asks for: that of the number it spells, and the first if it spells none
  abbrev pub AsksFor : ℕ → Type 0
  AsksFor n = ((atoi r.page ≡ none) × (n ≡ 1)) ⊎ ((0 < n) × (r.page ≡ decimal n))

  abbrev pub Shows : ℕ → Site → LogsReply × Db → Type 0
  Shows n site (reply, db) =
      (p : LogsPage) × (reply ≡ rendered p)
      × (p.current_page ≡ n)
      × (selected : ApiLog → Bool) × Selects selected
      × IsPage selected 50 ((n - 1) * 50) site.db.api_logs p.logs
