-- ===== src/Mail/Run.antt =====
-- The loop over the users: each is processed once and in order, whatever became of the others.
use e5renew.Prelude.{
  ℕ, ◌+◌, ◌≡◌, refl, sym, ap, ◌∙◌, ◌↔◌, List, [], ◌∷◌, ◌++◌, append_assoc, append-nil, arith,
  if◌then◌else◌, length,
}
use e5renew.Text.{Bytes, codes}
use e5renew.Failure.{Error, wrap, Result, ok, err, is_ok, ◌>>=◌}
use e5renew.Database.{Db, Collation}
use e5renew.Encryption.{Aead}
use e5renew.Tokens.{get_all_user_ids}
use e5renew.ApiLog.{ApiLogEntry}
use e5renew.Mail.{
  World, Outside, process_user_mail_activity, process_users, process_all_user_mail_activity,
  verdict, give,
}
use e5renew.Mail.Messages.{IsEntryFor, process_user_mail_activity-LeavesEntry}

abbrev pub failures : List (Result (Unit {0})) → ℕ
failures [] = 0
failures (r ∷ rs) = (if is_ok r then 0 else 1) + failures rs

-- The entries of users, each with the user's outcome.
abbrev pub AreEntries : List Bytes → List (Result (Unit {0})) → List ApiLogEntry → Type 0
AreEntries [] [] [] = Unit
AreEntries (u ∷ us) (r ∷ rs) (e ∷ es) = IsEntryFor u r e × AreEntries us rs es
AreEntries _ _ _ = ⊥

module _ (gcm : Aead) (c : Collation) (outside : Outside) where
  abbrev processed : Bytes → World → Result (Unit {0}) × World
  processed user_id w = process_user_mail_activity gcm c outside user_id w

  -- The users are processed one behind the other, with these outcomes, from one world to another.
  pub data Run : World → List Bytes → List (Result (Unit {0})) → World → Type 0 where
    stop : (w : World) → Run w [] [] w
    next :
        (w : World) (u : Bytes) (us : List Bytes) (rs : List (Result (Unit {0}))) (w' : World)
        → Run (processed u w).1 us rs w'
        → Run w (u ∷ us) ((processed u w).0 ∷ rs) w'

  abbrev Counted : List Bytes → ℕ → World → Result ℕ × World → Type 0
  Counted us n w (r, w') =
      (rs : List (Result (Unit {0}))) × Run w us rs w' × (r ≡ ok (n + failures rs))

  count_next :
      (u : Bytes) (us : List Bytes) (n : ℕ) (w : World) (out : Result ℕ × World)
      → Counted us (if is_ok (processed u w).0 then n else n + 1) (processed u w).1 out
      → Counted (u ∷ us) n w out
  count_next u us n w (r, w') (rs, run, counted) =
      ((processed u w).0 ∷ rs, next w u us rs w' run, counted ∙ ap ok (ground arith))

  process_users-Counted :
      (us : List Bytes) (n : ℕ) (w : World) → Counted us n w (process_users gcm c outside us n w)
  unfolding process_users
  process_users-Counted [] n w = ([], stop w, ap ok (omega arith))
  process_users-Counted (u ∷ us) n w =
      count_next u us n w _
        (process_users-Counted us (if is_ok (processed u w).0 then n else n + 1) (processed u w).1)

  -- A run leaves one entry for each user, in the order of the users, where the clients can be made.
  pub Run-AreEntries :
      (w : World) (us : List Bytes) (rs : List (Result (Unit {0}))) (w' : World)
      → Run w us rs w'
      → ((u : Bytes) → outside.new_mail_graph_client u ≡ ok tt)
      → (es : List ApiLogEntry) × AreEntries us rs es × (w'.pending ≡ w.pending ++ es)
  Run-AreEntries w _ _ _ (stop _) client = ([], tt, sym (append-nil _))
  Run-AreEntries w _ _ w' (next _ u us rs _ run) client =
      let (e, is_entry, first) =
        (process_user_mail_activity-LeavesEntry gcm c outside u w).0 (client u) in
      let (es, are_entries, others) = Run-AreEntries (processed u w).1 us rs w' run client in
      (
        e ∷ es,
        (is_entry, are_entries),
        others ∙ ap (λ p. p ++ es) first ∙ append_assoc w.pending (e ∷ []) es,
      )

  -- The outcome of the job for the outcomes of the users.
  abbrev pub Verdict : List Bytes → World → Result (Unit {0}) × World → Type 0
  Verdict us w (r, w') =
      (rs : List (Result (Unit {0}))) × Run w us rs w' × ((r ≡ ok tt) ↔ (failures rs ≡ 0))

  verdict_iff : (failed users : ℕ) → (verdict failed users ≡ ok tt) ↔ (failed ≡ 0)
  verdict_iff failed users = ground arith

  from_0 : (r : Result ℕ) (n : ℕ) → r ≡ ok (0 + n) → r ≡ ok n
  from_0 r n h = h ∙ ap ok (omega arith)

  by_count :
      (us : List Bytes) (w : World) (out : Result ℕ × World)
      → Counted us 0 w out
      → Verdict us w (((λ _. out) >>= λ error_count. give (verdict error_count (length us))) w)
  by_count us w (r, w') (rs, run, counted) =
      rw (from_0 r (failures rs) counted) (rs, run, verdict_iff (failures rs) (length us))

  -- If the list of the users can be read, every user of it is processed once, in its order, and
  -- whatever became of the others; the job succeeds just if every user's processing has. If it
  -- cannot, the job fails with that error and processes no user.
  pub process_all-Run :
      (w : World)
      → ((us : List Bytes) (db : Db)
          → get_all_user_ids c w.db ≡ (ok us, db)
          → Verdict us (record w { db = db }) (process_all_user_mail_activity gcm c outside w))
        × ((e : Error) (db : Db)
            → get_all_user_ids c w.db ≡ (err e, db)
            → process_all_user_mail_activity gcm c outside w
              ≡ (err (wrap (codes "failed to get user IDs") e), record w { db = db }))
  unfolding process_all_user_mail_activity
  process_all-Run w = (
    (λ us db listed.
        rw listed (
          by_count us (record w { db = db }) _
            (process_users-Counted us 0 (record w { db = db })))),
    λ e db failed. rw failed refl,
  )
