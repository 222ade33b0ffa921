-- ===== src/Stores/Alternation.antt =====
-- Sequences of calls of the stores: both engines give the same replies to all of them.
use e5renew.Prelude.{ℕ, ◌≡◌, refl, ap, ◌∙◌, Option, List, [], ◌∷◌}
use e5renew.Prelude.Int.{ℤ}
use e5renew.Text.{Bytes}
use e5renew.Failure.{Result, Exec}
use e5renew.Engine.{mysql, postgres}
use e5renew.Database.{Db, Collation, UserToken, ApiLog, CreateUserTokensParams, CreateApiLogParams}
use e5renew.Sql.{Tables}
use e5renew.Sql.Times.{IsTimestamp}
use e5renew.Mysql.Encoding.{Contents, tables_of, db_of, Alike}
use e5renew.Stores.{Stores, new_stores, repository_stores}
use e5renew.Stores.Conversion.{StoresAgree, new_stores-StoresAgree, repository_stores-StoresAgree}

-- A call of a method of db.Queries, which passes it on to one of its stores
pub data Call : Type 0 where
  create_api_log : CreateApiLogParams → Call
  delete_old_api_logs : ℕ → Call
  get_api_logs : ℤ → ℤ → Call
  get_api_logs_by_job_type : Bytes → ℤ → ℤ → Call
  get_api_logs_by_time_range : ℕ → ℕ → ℤ → ℤ → Call
  get_api_logs_by_user : Option Bytes → ℤ → ℤ → Call
  create_user_tokens : CreateUserTokensParams → Call
  delete_user_tokens : Bytes → Call
  get_user_token : Bytes → Call
  list_user_tokens : Call
  update_user_tokens : CreateUserTokensParams → Call

-- The times that the call stores are such as a TIMESTAMP column of MySQL keeps as they are.
abbrev pub HasTimestamps : Call → Type 0
HasTimestamps (create_api_log arg) = IsTimestamp arg.request_time × IsTimestamp arg.response_time
HasTimestamps (create_user_tokens arg) = IsTimestamp arg.expiry
HasTimestamps (update_user_tokens arg) = IsTimestamp arg.expiry
HasTimestamps _ = Unit

abbrev pub HaveTimestamps : List Call → Type 0
HaveTimestamps [] = Unit
HaveTimestamps (call ∷ calls) = HasTimestamps call × HaveTimestamps calls

pub data Reply : Type 0 where
  done : Result (Unit {0}) → Reply
  logs : Result (List ApiLog) → Reply
  token : Result UserToken → Reply
  tokens : Result (List UserToken) → Reply

abbrev replying : {S A : Type 0} → (Result A → Reply) → Result A × S → Reply × S
replying f (r, s) = (f r, s)

module _ {S : Type 0} (q : Stores S) where
  unfoldable pub perform : Call → S → Reply × S
  perform (create_api_log arg) s = replying done (q.apilog.create_api_log arg s)
  perform (delete_old_api_logs t) s = replying done (q.apilog.delete_old_api_logs t s)
  perform (get_api_logs limit offset) s = replying logs (q.apilog.get_api_logs limit offset s)
  perform (get_api_logs_by_job_type job_type limit offset) s =
      replying logs (q.apilog.get_api_logs_by_job_type job_type limit offset s)
  perform (get_api_logs_by_time_range start end limit offset) s =
      replying logs (q.apilog.get_api_logs_by_time_range start end limit offset s)
  perform (get_api_logs_by_user user_id limit offset) s =
      replying logs (q.apilog.get_api_logs_by_user user_id limit offset s)
  perform (create_user_tokens arg) s = replying done (q.tokens.create_user_tokens arg s)
  perform (delete_user_tokens user_id) s = replying done (q.tokens.delete_user_tokens user_id s)
  perform (get_user_token user_id) s = replying token (q.tokens.get_user_token user_id s)
  perform list_user_tokens s = replying tokens (q.tokens.list_user_tokens s)
  perform (update_user_tokens arg) s = replying done (q.tokens.update_user_tokens arg s)

  -- The calls one after the other, with their replies
  unfoldable pub run_calls : List Call → S → List Reply × S
  unfolding perform
  run_calls [] s = ([], s)
  run_calls (call ∷ calls) s =
      let (reply, s') = perform call s in
      let (replies, s'') = run_calls calls s' in (reply ∷ replies, s'')

-- One answer on both sides, and two views of one state
pub record Same {R : Type 0} (x : R × Tables) (y : R × Db) : Type 0 where
  pub answer : R
  pub after : Contents
  pub rows : x ≡ (answer, tables_of after)
  pub abstract : y ≡ (answer, db_of after)

module _ (m : Stores Tables) (n : Stores Db) where
  abbrev pub SameReply : Call → Contents → Type 0
  SameReply call s = Same (perform m call (tables_of s)) (perform n call (db_of s))

  abbrev pub SameReplies : List Call → Contents → Type 0
  SameReplies calls s = Same (run_calls m calls (tables_of s)) (run_calls n calls (db_of s))

replying-Same :
    {A : Type 0} (f : Result A → Reply) (m : Exec Tables A) (n : Exec Db A) (s : Contents)
    → Alike m n s
    → Same (replying f (m (tables_of s))) (replying f (n (db_of s)))
replying-Same f m n s alike = record {
  answer = f alike.answer;
  after = alike.after;
  rows = ap (replying f) alike.rows;
  abstract = ap (replying f) alike.abstract;
}

module _ (m : Stores Tables) (n : Stores Db) (agree : StoresAgree m n) where
  perform-SameReply : (call : Call) (s : Contents) → HasTimestamps call → SameReply m n call s
  unfolding perform
  perform-SameReply (create_api_log arg) s h =
      replying-Same done _ _ s (agree.create_api_log arg h.0 h.1 s)
  perform-SameReply (delete_old_api_logs t) s h =
      replying-Same done _ _ s (agree.delete_old_api_logs t s)
  perform-SameReply (get_api_logs limit offset) s h =
      replying-Same logs _ _ s (agree.get_api_logs limit offset s)
  perform-SameReply (get_api_logs_by_job_type job_type limit offset) s h =
      replying-Same logs _ _ s (agree.get_api_logs_by_job_type job_type limit offset s)
  perform-SameReply (get_api_logs_by_time_range start end limit offset) s h =
      replying-Same logs _ _ s (agree.get_api_logs_by_time_range start end limit offset s)
  perform-SameReply (get_api_logs_by_user user_id limit offset) s h =
      replying-Same logs _ _ s (agree.get_api_logs_by_user user_id limit offset s)
  perform-SameReply (create_user_tokens arg) s h =
      replying-Same done _ _ s (agree.create_user_tokens arg h s)
  perform-SameReply (delete_user_tokens user_id) s h =
      replying-Same done _ _ s (agree.delete_user_tokens user_id s)
  perform-SameReply (get_user_token user_id) s h =
      replying-Same token _ _ s (agree.get_user_token user_id s)
  perform-SameReply list_user_tokens s h = replying-Same tokens _ _ s (agree.list_user_tokens s)
  perform-SameReply (update_user_tokens arg) s h =
      replying-Same done _ _ s (agree.update_user_tokens arg h s)

  followed_by :
      (calls : List Call) (x : Reply × Tables) (y : Reply × Db) (first : Same x y)
      → Same (run_calls m calls (tables_of first.after)) (run_calls n calls (db_of first.after))
      → Same
          (let (reply, t) = x in let (replies, t') = run_calls m calls t in (reply ∷ replies, t'))
          (let (reply, d) = y in let (replies, d') = run_calls n calls d in (reply ∷ replies, d'))
  followed_by calls x y first rest = record {
    answer = first.answer ∷ rest.answer;
    after = rest.after;
    rows =
        ap
          (λ p.
            let (reply, t) = p in let (replies, t') = run_calls m calls t in (reply ∷ replies, t'))
          first.rows
        ∙ ap (λ p. let (replies, t') = p in (first.answer ∷ replies, t')) rest.rows;
    abstract =
        ap
          (λ p.
            let (reply, d) = p in let (replies, d') = run_calls n calls d in (reply ∷ replies, d'))
          first.abstract
        ∙ ap (λ p. let (replies, d') = p in (first.answer ∷ replies, d')) rest.abstract;
  }

  run_calls-SameReplies :
      (calls : List Call) (s : Contents) → HaveTimestamps calls → SameReplies m n calls s
  unfolding run_calls
  run_calls-SameReplies [] s h = record { answer = []; after = s; rows = refl; abstract = refl }
  run_calls-SameReplies (call ∷ calls) s h =
      let first = perform-SameReply call s h.0 in
      followed_by calls _ _ first (run_calls-SameReplies calls first.after h.1)

-- From any contents of the two tables, and with any statements failing, any sequence of calls, of
-- which the times to be stored are whole seconds between 1970-01-01 00:00:01 and
-- 2038-01-19 03:14:07, has the same replies from the stores that newStores makes for MySQL, which
-- send SQL statements with placeholders, keep times in TIMESTAMP columns and scan the cells of the
-- rows, as from those for PostgreSQL, given the same collation, and leaves the same contents; the
-- same holds of the stores of the repositories.
pub new_stores-SameReplies :
    (c : Collation) (calls : List Call) (s : Contents)
    → HaveTimestamps calls
    → SameReplies (new_stores mysql c) (new_stores postgres c) calls s
      × SameReplies (repository_stores mysql c) (repository_stores postgres c) calls s
new_stores-SameReplies c calls s h = (
  run_calls-SameReplies _ _ (new_stores-StoresAgree c) calls s h,
  run_calls-SameReplies _ _ (repository_stores-StoresAgree c) calls s h,
)
