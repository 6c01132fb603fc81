-- ===== src/Transition/Notices.antt =====
-- What the fan-outs of api/services/equipment_status_service.py leave alone.
use templehe_consign.Store.{
  User, EquipmentRecord, Watcher, Db, find_user, Texts, Via, by_email, by_sms,
}
use templehe_consign.Status.{Status, value, notifies_customer, notifies_sales_rep}
use templehe_consign.Base.{
  ℕ, String, ◌≡◌, inl, inr, Bool, true, false, Option, none, some, List, [], ◌∷◌, if◌then◌else◌,
  ◌==◌, nat_eq, string_eq, pair_eq, Bool-cases, Option-cases, ids_eq, get_or,
}
use templehe_consign.Store.Growth.{Sends, Sends-refl, Sends-trans, send-Sends}
use templehe_consign.Store.Recipients.{ResolvedChannel, resolve_channel}
use templehe_consign.Transition.{
  notify_customer, send_sales_rep, notify_sales_rep, dispatch_watcher, notify_watcher, notify_each,
  notify_watchers, fan_out, when_some,
}

module _ (x : Texts) where
  pub notify_customer-Sends :
      (c : User) (r : EquipmentRecord) (to : Status) (remark : Option String) (db : Db)
      → Sends db (notify_customer x c r to remark db)
  unfolding notify_customer
  notify_customer-Sends c r to remark db = send-Sends _ _ _ _ _ db

  send_sales_rep-Sends :
      (via : Via) (address : String) (rep : User) (r : EquipmentRecord) (to : Status) (db : Db)
      → Sends db (send_sales_rep x via address rep r to db)
  send_sales_rep-Sends by_sms address rep r to db = send-Sends _ _ _ _ _ db
  send_sales_rep-Sends by_email address rep r to db = elim (Bool-cases (address == "")) [
    | inl e ↦ rw e (Sends-refl db)
    | inr e ↦ rw e (send-Sends _ _ _ _ _ db)
  ]

  pub notify_sales_rep-Sends :
      (rep_id : ℕ) (r : EquipmentRecord) (to : Status) (db : Db)
      → Sends db (notify_sales_rep x rep_id r to db)
  unfolding notify_sales_rep
  notify_sales_rep-Sends rep_id r to db = elim (Option-cases (find_user rep_id db)) [
    | inl e ↦ rw (e, notify_sales_rep) (Sends-refl db)
    | inr (rep, e) ↦ elim (Bool-cases (rep.status == "active")) [
      | inl a ↦
          rw (e, a, notify_sales_rep)
            (send_sales_rep-Sends (resolve_channel rep db).channel
              (resolve_channel rep db).destination rep r to db)
      | inr a ↦ rw (e, a, notify_sales_rep) (Sends-refl db)
    ]
  ]

  dispatch_watcher-Sends :
      (c : ResolvedChannel) (w : User) (r : EquipmentRecord) (to : Status) (remark : Option String)
      (db : Db)
      → Sends db (dispatch_watcher x c w r to remark db)
  dispatch_watcher-Sends c w r to remark db = elim (Bool-cases (c.destination == "")) [
    | inl e ↦ rw e (Sends-refl db)
    | inr e ↦ rw e (send-Sends _ _ _ _ _ db)
  ]

  notify_watcher-Sends :
      (watcher_id : ℕ) (r : EquipmentRecord) (to : Status) (remark : Option String) (db : Db)
      → Sends db (notify_watcher x watcher_id r to remark db)
  unfolding notify_watcher
  notify_watcher-Sends watcher_id r to remark db = elim (Option-cases (find_user watcher_id db)) [
    | inl e ↦ rw (e, notify_watcher) (Sends-refl db)
    | inr (w, e) ↦ elim (Bool-cases (w.status == "active")) [
      | inl a ↦
          rw (e, a, notify_watcher) (dispatch_watcher-Sends (resolve_channel w db) w r to remark db)
      | inr a ↦ rw (e, a, notify_watcher) (Sends-refl db)
    ]
  ]

  notify_each-Sends :
      (ws : List Watcher) (r : EquipmentRecord) (to : Status) (remark : Option String) (db : Db)
      → Sends db (notify_each x ws r to remark db)
  unfolding notify_each
  notify_each-Sends [] r to remark db = Sends-refl db
  notify_each-Sends (w ∷ ws) r to remark db =
      Sends-trans (notify_watcher-Sends w.user_id r to remark db)
        (notify_each-Sends ws r to remark _)

  pub notify_watchers-Sends :
      (r : EquipmentRecord) (to : Status) (remark : Option String) (db : Db)
      → Sends db (notify_watchers x r to remark db)
  unfolding notify_watchers
  notify_watchers-Sends r to remark db = notify_each-Sends _ r to remark db

  -- All the fan-outs together leave every table but the queue as it was.
  pub fan_out-Sends :
      (r : EquipmentRecord) (to : Status) (remark : Option String) (customer : Option User)
      (notify_override : Option Bool) (db : Db)
      → Sends db (fan_out x r to remark customer notify_override db)
  unfolding fan_out
  fan_out-Sends r to remark customer notify_override db = go for_customer for_rep
    where
      for_customer : Bool
      for_customer = get_or notify_override (notifies_customer (value to))

      for_rep : Bool
      for_rep = get_or notify_override (notifies_sales_rep (value to))

      first : Bool → Db
      first b = if b then when_some x customer (λ c. notify_customer x c r to remark) db else db

      second : Bool → Bool → Db
      second b c =
          if c
          then when_some x r.assigned_sales_rep_id (λ rep. notify_sales_rep x rep r to) (first b)
          else first b

      some_customer :
          (c : Option User) (d : Db)
          → Sends d (when_some x c (λ u. notify_customer x u r to remark) d)
      some_customer none d = Sends-refl d
      some_customer (some u) d = notify_customer-Sends u r to remark d

      some_rep :
          (i : Option ℕ) (d : Db) → Sends d (when_some x i (λ u. notify_sales_rep x u r to) d)
      some_rep none d = Sends-refl d
      some_rep (some u) d = notify_sales_rep-Sends u r to d

      one : (b : Bool) → Sends db (first b)
      one true = some_customer customer db
      one false = Sends-refl db

      two : (b c : Bool) → Sends db (second b c)
      two b true = Sends-trans (one b) (some_rep r.assigned_sales_rep_id (first b))
      two b false = one b

      go :
          (b c : Bool)
          → Sends db (if b then notify_watchers x r to remark (second b c) else second b c)
      go true c = Sends-trans (two true c) (notify_watchers-Sends r to remark (second true c))
      go false c = two false c

  -- Where the customer is notified, that comes first and the rest only adds to it.
  pub fan_out_customer :
      (r : EquipmentRecord) (to : Status) (remark : Option String) (c : User)
      (notify_override : Option Bool) (db : Db)
      → get_or notify_override (notifies_customer (value to)) ≡ true
      → Sends
          (notify_customer x c r to remark db)
          (fan_out x r to remark (some c) notify_override db)
  unfolding fan_out
  fan_out_customer r to remark c notify_override db h =
      rw h (go (get_or notify_override (notifies_sales_rep (value to))))
    where
      told : Db
      told = notify_customer x c r to remark db

      some_rep : (i : Option ℕ) → Sends told (when_some x i (λ u. notify_sales_rep x u r to) told)
      some_rep none = Sends-refl told
      some_rep (some u) = notify_sales_rep-Sends u r to told

      go :
          (b : Bool)
          → Sends told (
              notify_watchers x r to remark (
                if b
                then when_some x r.assigned_sales_rep_id (λ u. notify_sales_rep x u r to) told
                else told))
      go true = Sends-trans (some_rep r.assigned_sales_rep_id) (notify_watchers-Sends r to remark _)
      go false = notify_watchers-Sends r to remark told
