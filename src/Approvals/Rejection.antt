-- ===== src/Approvals/Rejection.antt =====
-- What a rejection of an appraisal does: reject of api/services/approval_service.py.
use templehe_consign.Store.{EquipmentRecord, Db, HttpError, record_id, find_record, Texts, by_email}
use templehe_consign.Jobs.{JobKey, no_payload, find_job}
use templehe_consign.Table.{find, update, find_key, find-update_self}
use templehe_consign.Base.Result.{Result, ok, err, require, or_raise, >>=-eq-ok}
use templehe_consign.Base.{
  ℕ, String, ◌≡◌, refl, sym, ap, subst, ◌∙◌, ◌≢◌, Bool, true, false, Option, none, some, arith,
  if◌then◌else◌, ◌==◌, nat_eq, string_eq, pair_eq, eq→≡, is_some, ids_eq, int_eq,
}
use templehe_consign.Store.Growth.{
  Grows, Grows-trans, Sends, Sends-refl, Sends-trans, send-Sends, send_present,
}
use templehe_consign.Transition.{record_transition}
use templehe_consign.Transition.Outcome.{record_transition_effect}
use templehe_consign.Requests.{AppraisalSubmission, Tables}
use templehe_consign.Approvals.{
  declined, new_request, ApprovalError, lookup_error, value_error, lift, submission_id, live,
  find_submission, rejected, next_status, appraiser_key, rep_key, tell, tell_appraiser, tell_rep,
  reject, log, resolve_actor_role,
}

pub lift_ok : {A : Type 0} (o : Result HttpError A) {a : A} → lift o ≡ ok a → o ≡ ok a
lift_ok (ok b) h = ground arith
lift_ok (err e) h = absurd (ground arith)

pub raised_ok : {A : Type 0} (o : Option A) {a : A} → or_raise o lookup_error ≡ ok a → o ≡ some a
raised_ok none h = absurd (ground arith)
raised_ok (some b) h = ground arith

pub required_ok :
    (b : Bool) {u : Unit {0}}
    → ◌≡◌ {A = Result ApprovalError (Unit {0})} (require b value_error) (ok u)
    → b ≡ true
required_ok b h = ground arith

-- A row that is found and not deleted is found.
pub live_found :
    (o : Option AppraisalSubmission) {s : AppraisalSubmission} → live o ≡ some s → o ≡ some s
live_found none h = absurd (ground arith)
live_found (some s) h = ground arith

tell-Sends :
    (key : JobKey) (template : String) (user : Option ℕ) (db : Db)
    → Sends db (tell key template user db)
unfolding tell
tell-Sends key template none db = Sends-refl db
tell-Sends key template (some u) db = send-Sends by_email key (some u) template no_payload db

tell_present :
    (key : JobKey) (template : String) (user : Option ℕ) (db : Db)
    → is_some user ≡ true
    → find_job key (tell key template user db).jobs ≢ none
unfolding tell
tell_present key template none db h = cc
tell_present key template (some u) db h = send_present by_email key (some u) template no_payload db

module _ (x : Texts) (i user : ℕ) (notes : String) (send_back : Bool) where
  -- The database after the transition and the mails.
  abbrev mailed : AppraisalSubmission → EquipmentRecord → Db → Db
  mailed s r db = tell_rep r s (tell_appraiser send_back s db)

  abbrev Rejected : Tables → Tables → Type 0
  Rejected t t' =
      (s : AppraisalSubmission) × (find_submission i t ≡ some s)
      × (s.status ≡ "submitted")
      × ((r : EquipmentRecord) × (find_record s.equipment_record_id t.db ≡ some r)
          × ((db : Db) × (record_transition x r (next_status send_back) (some user) (some notes)
                  none none t.db
                ≡ ok db)
              × (t' ≡ record t {
                db =
                    log "appraisal_submission.rejected" user (resolve_actor_role user t)
                      "appraisal_submission" s.id (mailed s r db);
                submissions = update submission_id i (rejected notes) t.submissions;
              })))

  reject_inv :
      (t : Tables) {t' : Tables} → reject x i user notes send_back t ≡ ok t' → Rejected t t'
  unfolding reject
  reject_inv t {t'} h =
      let (s, f, h1) = >>=-eq-ok (or_raise (find_submission i t) lookup_error) _ h in
      let (_, p, h2) = >>=-eq-ok (require (s.status == "submitted") value_error) _ h1 in
      let (r, g, h3) =
        >>=-eq-ok (or_raise (find_record s.equipment_record_id t.db) lookup_error) _ h2 in
      let (db, w, h4) =
        >>=-eq-ok
          (lift
            (record_transition x r (next_status send_back) (some user) (some notes) none none t.db))
          _ h3 in
      (
        s,
        raised_ok (find_submission i t) f,
        eq→≡ s.status "submitted" (required_ok (s.status == "submitted") p),
        (
          r,
          raised_ok (find_record s.equipment_record_id t.db) g,
          (
            db,
            lift_ok
                (record_transition x r (next_status send_back) (some user) (some notes) none none
                  t.db)
                w,
            ended h4,
          ),
        ),
      )
    where
      ended : {s : Tables} → ◌≡◌ {A = Result ApprovalError Tables} (ok s) (ok t') → t' ≡ s
      ended h4 = ground arith

  mailed-Sends :
      (s : AppraisalSubmission) (r : EquipmentRecord) (db : Db) → Sends db (mailed s r db)
  mailed-Sends s r db =
      Sends-trans (first send_back)
        (tell-Sends (rep_key s.id) _ r.assigned_sales_rep_id (tell_appraiser send_back s db))
    where
      first : (b : Bool) → Sends db (tell_appraiser b s db)
      first true = tell-Sends (appraiser_key s.id) _ s.appraiser_id db
      first false = Sends-refl db

  -- A rejection that returns was of an appraisal that had been submitted, which is rejected now, with
  -- the notes; its record is a new request again if it is sent back, and declined if not, and no
  -- other record has changed; the assigned sales rep, if there is one, has a mail in the queue.
  pub reject_lem :
      (t : Tables) {t' : Tables}
      → reject x i user notes send_back t ≡ ok t'
      → (s : AppraisalSubmission) × (find submission_id i t.submissions ≡ some s)
        × (s.status ≡ "submitted")
        × ((d : AppraisalSubmission) × (find submission_id i t'.submissions ≡ some d)
            × (d.status ≡ "rejected")
            × (d.rejection_notes ≡ some notes))
        × ((r : EquipmentRecord) × (find_record s.equipment_record_id t.db ≡ some r)
            × (find_record r.id t'.db
                ≡ some (record r { status = if send_back then new_request else declined }))
            × ((j : ℕ) → j ≢ r.id → find_record j t'.db ≡ find_record j t.db)
            × (is_some r.assigned_sales_rep_id ≡ true → find_job (rep_key s.id) t'.db.jobs ≢ none))
        × Grows t.db.jobs t'.db.jobs
  reject_lem t {t'} h =
      let (s, f, p, (r, g, (db, w, e))) = reject_inv t h in
      let found = live_found (find submission_id i t.submissions) f in
      let there =
        subst (λ k. find_record k t.db ≡ some r)
          (sym (find_key record_id s.equipment_record_id t.db.records g)) g in
      let (a, b, _, _, _, grown) =
        record_transition_effect x r (next_status send_back) (some user) (some notes) none none t.db
          there w in
      let sent = mailed-Sends s r db in
      (
        s,
        found,
        p,
        (
          rejected notes s,
          ap (λ u. find submission_id i u.submissions) e
              ∙ find-update_self submission_id i (rejected notes) t.submissions (λ y. refl) found,
          refl,
          refl,
        ),
        (
          r,
          g,
          ap (λ u. find_record r.id u.db) e ∙ ap (find record_id r.id) sent.same_records ∙ a,
          λ j n. ap (λ u. find_record j u.db) e ∙ ap (find record_id j) sent.same_records ∙ b j n,
          λ k q.
              tell_present (rep_key s.id) "appraisal_rejected_sales_rep_email"
                r.assigned_sales_rep_id (tell_appraiser send_back s db) k
                (ap (λ u. find_job (rep_key s.id) u.db.jobs) (sym e) ∙ q),
        ),
        subst (λ u. Grows t.db.jobs u.db.jobs) (sym e)
            (Grows-trans t.db.jobs db.jobs (mailed s r db).jobs grown sent.grown),
      )

-- An appraisal is rejected once: after a rejection that returns, every further one of the same
-- appraisal raises a ValueError.
pub reject_once :
    (x : Texts) (i user user' : ℕ) (notes notes' : String) (send_back send_back' : Bool)
    (t : Tables) {t' : Tables}
    → reject x i user notes send_back t ≡ ok t'
    → reject x i user' notes' send_back' t' ≡ err value_error
unfolding reject
reject_once x i user user' notes notes' send_back send_back' t {t'} h =
    let (s, f, _, (r, _, (db, _, e))) = reject_inv x i user notes send_back t h in
    let found = live_found (find submission_id i t.submissions) f in
    let now =
      ap (λ u. find_submission i u) e
      ∙ ap live (find-update_self submission_id i (rejected notes) t.submissions (λ y. refl) found)
      ∙ still_live (find submission_id i t.submissions) found f in
    rw (now, reject) refl
  where
    still_live :
        (o : Option AppraisalSubmission) {s : AppraisalSubmission}
        → o ≡ some s
        → live o ≡ some s
        → live (some (rejected notes s)) ≡ some (rejected notes s)
    still_live o found f = ground arith
