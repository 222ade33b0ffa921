-- ===== src/Mail/Messages.antt =====
-- The messages that GetUserMail gives back, and the entry that it leaves.
use e5renew.Prelude.{
  ℕ, ◌≡◌, refl, ap, ◌↔◌, inl, inr, true, false, Option, none, some, List, [], ◌∷◌, ◌++◌, map, arith,
}
use e5renew.Text.{Bytes, codes}
use e5renew.Failure.{Error, Result, ok, err, is_ok, Result-cases}
use e5renew.Database.{Collation}
use e5renew.Encryption.{Aead}
use e5renew.TokenSource.{get_token}
use e5renew.ApiLog.{ApiLogEntry}
use e5renew.Mail.{
  Message, to_mail_message, convert_all, World, Outside, graph_entry, get_user_mail,
  process_user_mail_activity,
}

-- The messages that are not nil, in their order.
abbrev pub present {ℓ} : {A : Type ℓ} → List (Option A) → List A
present [] = []
present (none ∷ xs) = present xs
present (some x ∷ xs) = x ∷ present xs

pub convert_all-present :
    (rfc3339 : ℕ → Bytes) (ms : List (Option Message))
    → convert_all rfc3339 ms ≡ map (to_mail_message rfc3339) (present ms)
unfolding convert_all
convert_all-present rfc3339 [] = refl
convert_all-present rfc3339 (none ∷ ms) = convert_all-present rfc3339 ms
convert_all-present rfc3339 (some m ∷ ms) =
    ap (λ r. to_mail_message rfc3339 m ∷ r) (convert_all-present rfc3339 ms)

-- One entry of the user's own for a call to me/messages, marked as a success just if `r` is one,
-- and with no message just then.
abbrev pub IsEntryFor {ℓ} : {A : Type ℓ} → Bytes → Result A → ApiLogEntry → Type 0
IsEntryFor user_id r entry =
    (entry.user_id ≡ some user_id)
    × (entry.api_endpoint ≡ codes "me/messages")
    × (entry.job_type ≡ codes "user_mail")
    × (entry.success ≡ is_ok r)
    × ((entry.error_message ≡ none) ↔ (is_ok r ≡ true))

-- `w'` is `w` behind a call that left one more entry, for the user and the outcome `r`.
abbrev pub LeavesEntry {ℓ} : {A : Type ℓ} → Bytes → World → Result A → World → Type 0
LeavesEntry user_id w r w' =
    (entry : ApiLogEntry) × IsEntryFor user_id r entry × (w'.pending ≡ w.pending ++ (entry ∷ []))

module _ (gcm : Aead) (c : Collation) (outside : Outside) where
  abbrev mail : Bytes → World → Result (Option (Option (List (Option Message))))
  mail user_id w =
      (outside.get_mail_messages user_id
        (get_token gcm c (outside.oauth2_source user_id) (outside.nonces user_id) user_id) w.db).0

  pub get_user_mail-LeavesEntry :
      (user_id : Bytes) (w : World)
      → outside.new_mail_graph_client user_id ≡ ok tt
      → LeavesEntry user_id w
          (get_user_mail gcm c outside user_id w).0
          (get_user_mail gcm c outside user_id w).1
  unfolding get_user_mail graph_entry
  get_user_mail-LeavesEntry user_id w client = elim (Result-cases (mail user_id w)) [
    | inl (messages, read) ↦
        rw (client, read) (_, (refl, refl, refl, refl, ((λ h. refl), λ h. refl)), refl)
    | inr (e, failed) ↦ rw (client, failed) (_, (refl, refl, refl, refl, ground arith), refl)
  ]

  of_processing :
      (user_id : Bytes) (w : World)
      → LeavesEntry user_id w
          (get_user_mail gcm c outside user_id w).0
          (get_user_mail gcm c outside user_id w).1
      → LeavesEntry user_id w
          (process_user_mail_activity gcm c outside user_id w).0
          (process_user_mail_activity gcm c outside user_id w).1
  unfolding process_user_mail_activity
  of_processing user_id w h = elim (Result-cases (get_user_mail gcm c outside user_id w).0) [
    | inl (messages, read) ↦ rw read (rw read at h)
    | inr (e, failed) ↦ rw failed (rw failed at h)
  ]

  -- Where the Graph client can be made, a user's processing leaves one entry, which tells whether it
  -- has succeeded; where the client cannot be made, it fails and leaves no entry.
  pub process_user_mail_activity-LeavesEntry :
      (user_id : Bytes) (w : World)
      → (outside.new_mail_graph_client user_id ≡ ok tt
          → LeavesEntry user_id w
              (process_user_mail_activity gcm c outside user_id w).0
              (process_user_mail_activity gcm c outside user_id w).1)
        × ((e : Error)
            → outside.new_mail_graph_client user_id ≡ err e
            → (is_ok (process_user_mail_activity gcm c outside user_id w).0 ≡ false)
              × ((process_user_mail_activity gcm c outside user_id w).1 ≡ w))
  unfolding process_user_mail_activity get_user_mail
  process_user_mail_activity-LeavesEntry user_id w = (
    (λ client. of_processing user_id w (get_user_mail-LeavesEntry user_id w client)),
    λ e failed. rw failed (refl, refl),
  )
