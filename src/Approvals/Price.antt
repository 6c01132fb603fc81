-- ===== src/Approvals/Price.antt =====
-- What the approval of a price change does: approve_price_change of api/services/approval_service.py.
use templehe_consign.Table.{find, update, IsUnique, find-update_self, find-cons_self, find-cons_ne}
use templehe_consign.Base.Result.{Result, ok, require, or_raise, >>=-eq-ok}
use templehe_consign.Base.{
  ℕ, String, ◌≡◌, refl, ap, subst, ◌∙◌, ◌⊎◌, inl, inr, Bool, true, false, Option, none, some, List,
  [], ◌∷◌, arith, ◌==◌, nat_eq, string_eq, pair_eq, eq→≡, Bool-cases, select, ids_eq, int_eq,
}
use templehe_consign.Requests.{ChangeRequest, AppraisalSubmission, Tables, change_id}
use templehe_consign.Requests.Prices.{one_or_none}
use templehe_consign.Approvals.{
  ApprovalError, lookup_error, value_error, lift, submission_id, is_live_approved, repriced,
  reapproved, write_price, approve_price_change, log, resolve_actor_role,
}
use templehe_consign.Approvals.Rejection.{lift_ok, raised_ok, required_ok}

-- The one row that a query finds is found by its id.
only_found :
    (test : AppraisalSubmission → Bool) (xs : List AppraisalSubmission) {s : AppraisalSubmission}
    → IsUnique submission_id xs
    → select test xs ≡ s ∷ []
    → find submission_id s.id xs ≡ some s
only_found test [] u h = absurd (ground arith)
only_found test (y ∷ ys) {s} u h = elim (Bool-cases (test y)) [
  | inl e ↦
      (let same : y ≡ s = ground arith in
        subst (λ w. find submission_id w.id (y ∷ ys) ≡ some w) same
          (find-cons_self submission_id y ys))
  | inr e ↦
      (let deep = only_found test ys {s = s} u.1 (ground arith) in
        find-cons_ne submission_id s.id y ys
          (λ q. absurd (cc (ap (λ k. find submission_id k ys) q, deep, u.0)))
        ∙ deep)
]

module _ (show_price : ℕ → String) (clock i user : ℕ) where
  abbrev Approved : Tables → Tables → Type 0
  Approved t t' =
      (c : ChangeRequest) × (find change_id i t.changes ≡ some c)
      × (c.status ≡ "pending")
      × (c.requires_manager_reapproval ≡ true)
      × ((s : Option AppraisalSubmission) × (one_or_none
              (select (is_live_approved c.equipment_record_id) t.submissions)
            ≡ ok s)
          × (t' ≡ record t {
            db =
                log "change_request.price_reapproved" user (resolve_actor_role user t)
                  "change_request" c.id t.db;
            changes = update change_id i (reapproved show_price clock user) t.changes;
            submissions = write_price s c.proposed_consignment_price t.submissions;
          }))

  approve_inv :
      (t : Tables) {t' : Tables}
      → approve_price_change show_price clock i user t ≡ ok t'
      → Approved t t'
  unfolding approve_price_change
  approve_inv t {t'} h =
      let (c, f, h1) = >>=-eq-ok (or_raise (find change_id i t.changes) lookup_error) _ h in
      let (_, p, h2) = >>=-eq-ok (require (c.status == "pending") value_error) _ h1 in
      let (_, q, h3) = >>=-eq-ok (require c.requires_manager_reapproval value_error) _ h2 in
      let (s, k, h4) =
        >>=-eq-ok
          (lift (one_or_none (select (is_live_approved c.equipment_record_id) t.submissions))) _
          h3 in
      (
        c,
        raised_ok (find change_id i t.changes) f,
        eq→≡ c.status "pending" (required_ok (c.status == "pending") p),
        required_ok c.requires_manager_reapproval q,
        (
          s,
          lift_ok (one_or_none (select (is_live_approved c.equipment_record_id) t.submissions)) k,
          ended h4,
        ),
      )
    where
      ended : {s : Tables} → ◌≡◌ {A = Result ApprovalError Tables} (ok s) (ok t') → t' ≡ s
      ended h4 = ground arith

  one_found :
      (xs : List AppraisalSubmission) {s : AppraisalSubmission}
      → one_or_none xs ≡ ok (some s)
      → xs ≡ s ∷ []
  one_found [] h = absurd (ground arith)
  one_found (y ∷ []) h = ground arith
  one_found (y ∷ z ∷ ys) h = absurd (ground arith)

  none_found : (xs : List AppraisalSubmission) → one_or_none xs ≡ ok none → xs ≡ []
  none_found [] h = refl
  none_found (y ∷ []) h = absurd (ground arith)
  none_found (y ∷ z ∷ ys) h = absurd (ground arith)

  -- An approval of a price change that returns was of a pending request that required a manager,
  -- which is resolved now and requires one no longer. The record has no approved appraisal, and no
  -- appraisal has changed, or it has one, which has the proposed price now, if there is one, where
  -- the ids of the appraisals are unique.
  pub approve_price_change_lem :
      (t : Tables) {t' : Tables}
      → IsUnique submission_id t.submissions
      → approve_price_change show_price clock i user t ≡ ok t'
      → (c : ChangeRequest) × (find change_id i t.changes ≡ some c)
        × (c.status ≡ "pending")
        × (c.requires_manager_reapproval ≡ true)
        × ((d : ChangeRequest) × (find change_id i t'.changes ≡ some d)
            × (d.status ≡ "resolved")
            × (d.requires_manager_reapproval ≡ false))
        × (((select (is_live_approved c.equipment_record_id) t.submissions ≡ [])
              × (t'.submissions ≡ t.submissions))
            ⊎ ((s : AppraisalSubmission) × (select
                    (is_live_approved c.equipment_record_id)
                    t.submissions
                  ≡ s ∷ [])
                × (find submission_id s.id t'.submissions
                    ≡ some (repriced c.proposed_consignment_price s))))
  approve_price_change_lem t {t'} u h =
      let (c, f, p, q, (s, k, e)) = approve_inv t h in
      (
        c,
        f,
        p,
        q,
        (
          reapproved show_price clock user c,
          ap (λ w. find change_id i w.changes) e
              ∙ find-update_self change_id i (reapproved show_price clock user) t.changes
                  (λ y. refl) f,
          refl,
          refl,
        ),
        priced c s k (ap (λ w. w.submissions) e),
      )
    where
      kept_id : (price : Option ℕ) (y : AppraisalSubmission) → (repriced price y).id ≡ y.id
      kept_id none y = refl
      kept_id (some price) y = refl

      priced :
          (c : ChangeRequest) (s : Option AppraisalSubmission)
          → one_or_none (select (is_live_approved c.equipment_record_id) t.submissions) ≡ ok s
          → t'.submissions ≡ write_price s c.proposed_consignment_price t.submissions
          → ((select (is_live_approved c.equipment_record_id) t.submissions ≡ [])
              × (t'.submissions ≡ t.submissions))
            ⊎ ((s : AppraisalSubmission) × (select
                    (is_live_approved c.equipment_record_id)
                    t.submissions
                  ≡ s ∷ [])
                × (find submission_id s.id t'.submissions
                    ≡ some (repriced c.proposed_consignment_price s)))
      priced c none k e =
          inl (none_found (select (is_live_approved c.equipment_record_id) t.submissions) k, e)
      priced c (some s) k e =
          let one = one_found (select (is_live_approved c.equipment_record_id) t.submissions) k in
          inr (
            s,
            one,
            ap (find submission_id s.id) e
                ∙ find-update_self submission_id s.id (repriced c.proposed_consignment_price)
                    t.submissions (kept_id c.proposed_consignment_price)
                    (only_found (is_live_approved c.equipment_record_id) t.submissions u one),
          )
