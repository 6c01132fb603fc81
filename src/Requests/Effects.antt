-- ===== src/Requests/Effects.antt =====
-- What a resolution of a change request does: api/services/change_request_service.py.
use templehe_consign.Table.{find, update, find_key, find-update_self}
use templehe_consign.Base.{
  ℕ, String, ◌≡◌, refl, ap, subst, ◌∙◌, ◌≢◌, Bool, true, Option, none, some, arith, ◌==◌, nat_eq,
  string_eq, pair_eq, eq→≡, ne→neq, ids_eq, int_eq,
}
use templehe_consign.Store.{User, EquipmentRecord, Db, HttpError, http, find_record, Texts}
use templehe_consign.Base.Result.{Result, ok, err, require, or_raise, >>=-eq-ok}
use templehe_consign.Requests.{ChangeRequest, Tables, change_id, sanitize_plain}
use templehe_consign.Requests.Resolving.{
  settled, resolve_change_request, is_resolution, withdraws, withdraw, tell_resolution,
  audit_resolution,
}

module _ (x : Texts) (clean : String → String) (clock change : ℕ) (resolver : User)
    (role new_status : String) (notes : Option String) where
  abbrev pub resolve : Tables → Result HttpError Tables
  resolve t = resolve_change_request x clean clock change resolver role new_status notes t

  abbrev pub remark : Option String
  remark = sanitize_plain clean notes

  -- The tables after a resolution.
  abbrev pub resolved_tables : ChangeRequest → EquipmentRecord → User → Db → Tables → Tables
  resolved_tables c r customer db t = record t {
    db =
        audit_resolution resolver role c new_status
          (tell_resolution x customer r c new_status remark db);
    changes = update change_id c.id (settled new_status remark clock resolver.id) t.changes;
  }

  -- What a call that returns has found.
  abbrev pub Resolved : Tables → Tables → Type 0
  Resolved t t' =
      (c : ChangeRequest) × (find change_id change t.changes ≡ some c)
      × (c.status ≡ "pending")
      × ((r : EquipmentRecord) × (find_record c.equipment_record_id t.db ≡ some r)
          × ((db : Db) × (withdraw x (withdraws new_status c) r resolver.id remark t.db ≡ ok db)
              × ((customer : User) × (r.customer_user ≡ some customer)
                  × (t' ≡ resolved_tables c r customer db t))))

  found_raise :
      {A : Type 0} (o : Option A) (e : HttpError) {a : A} → or_raise o e ≡ ok a → o ≡ some a
  found_raise none e h = absurd (ground arith)
  found_raise (some b) e h = ground arith

  passed :
      (b : Bool) {u : Unit {0}}
      → ◌≡◌ {A = Result HttpError (Unit {0})} (require b (http 409)) (ok u)
      → b ≡ true
  passed b h = ground arith

  valid :
      (b : Bool) {u : Unit {0}}
      → ◌≡◌ {A = Result HttpError (Unit {0})} (require b (http 422)) (ok u)
      → b ≡ true
  valid b h = ground arith

  pub resolve_inv :
      (t : Tables) {t' : Tables}
      → resolve t ≡ ok t'
      → (is_resolution new_status ≡ true) × Resolved t t'
  unfolding resolve_change_request
  resolve_inv t {t'} h =
      let (_, q, h1) = >>=-eq-ok (require (is_resolution new_status) (http 422)) _ h in
      let (c, f, h2) = >>=-eq-ok (or_raise (find change_id change t.changes) (http 404)) _ h1 in
      let (_, p, h3) = >>=-eq-ok (require (c.status == "pending") (http 409)) _ h2 in
      let (r, g, h4) =
        >>=-eq-ok (or_raise (find_record c.equipment_record_id t.db) (http 500)) _ h3 in
      let (db, w, h5) =
        >>=-eq-ok (withdraw x (withdraws new_status c) r resolver.id remark t.db) _ h4 in
      let (customer, k, h6) = >>=-eq-ok (or_raise r.customer_user (http 500)) _ h5 in
      (
        valid (is_resolution new_status) q,
        (
          c,
          found_raise (find change_id change t.changes) (http 404) f,
          eq→≡ c.status "pending" (passed (c.status == "pending") p),
          (
            r,
            found_raise (find_record c.equipment_record_id t.db) (http 500) g,
            (db, w, (customer, found_raise r.customer_user (http 500) k, ended h6)),
          ),
        ),
      )
    where
      ended : {s : Tables} → ◌≡◌ {A = Result HttpError Tables} (ok s) (ok t') → t' ≡ s
      ended h6 = ground arith

  -- The resolution of a request in the table that is not pending.
  closed_refused :
      (t : Tables) {c : ChangeRequest}
      → is_resolution new_status ≡ true
      → find change_id change t.changes ≡ some c
      → c.status ≢ "pending"
      → resolve t ≡ err (http 409)
  unfolding resolve_change_request
  closed_refused t {c} v f n = rw (v, f, ne→neq c.status "pending" n, resolve_change_request) refl

  pub found_settled :
      (t : Tables) (r : EquipmentRecord) (customer : User) (db : Db) {c : ChangeRequest}
      → find change_id change t.changes ≡ some c
      → find change_id change (resolved_tables c r customer db t).changes
        ≡ some (settled new_status remark clock resolver.id c)
  found_settled t r customer db {c} f =
      ap
        (λ i.
          find change_id change
            (update change_id i (settled new_status remark clock resolver.id) t.changes))
        (find_key change_id change t.changes f)
      ∙ find-update_self change_id change (settled new_status remark clock resolver.id) t.changes
          (λ y. refl) f

  pub not_pending : is_resolution new_status ≡ true → new_status ≢ "pending"
  not_pending v e = absurd (no (subst (λ s. is_resolution s ≡ true) e v))
    where
      no : is_resolution "pending" ≡ true → ⊥
      no h = cc

  pub resolve_settles :
      (t : Tables) {t' : Tables}
      → resolve t ≡ ok t'
      → (c : ChangeRequest) × (find change_id change t.changes ≡ some c)
        × (c.status ≡ "pending")
        × (find change_id change t'.changes ≡ some (settled new_status remark clock resolver.id c))
        × (new_status ≢ "pending")
  resolve_settles t {t'} h =
      let (v, (c, f, p, (r, g, (db, w, (customer, k, e))))) = resolve_inv t h in
      (
        c,
        f,
        p,
        ap (λ s. find change_id change s.changes) e ∙ found_settled t r customer db f,
        not_pending v,
      )

-- A change request is resolved once: after a resolution that returns, every further one of the same
-- request raises 409, whoever tries it, to either of the two statuses.
pub resolve_once :
    (x : Texts) (clean : String → String) (clock clock' change : ℕ) (resolver resolver' : User)
    (role role' new_status new_status' : String) (notes notes' : Option String) (t : Tables)
    {t' : Tables}
    → resolve_change_request x clean clock change resolver role new_status notes t ≡ ok t'
    → is_resolution new_status' ≡ true
    → resolve_change_request x clean clock' change resolver' role' new_status' notes' t'
      ≡ err (http 409)
resolve_once x clean clock clock' change resolver resolver' role role' new_status new_status' notes
      notes' t {t'} h v =
    let (c, _, _, f, n) = resolve_settles x clean clock change resolver role new_status notes t h in
    closed_refused x clean clock' change resolver' role' new_status' notes' t' v f n
