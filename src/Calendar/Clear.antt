-- ===== src/Calendar/Clear.antt =====
-- The invariant of the calendar of api/services/calendar_service.py, that no appraiser has two
-- appointments at one time, and the writes that keep it.
use templehe_consign.Table.{find, update, IsUnique}
use templehe_consign.Store.{CalendarEvent, event_id}
use templehe_consign.Base.{
  ℕ, ◌≤◌, ◌≡◌, sym, ap, ◌∙◌, ◌≢◌, inl, inr, Bool, true, false, not, ◌&&◌, Option, none, List, [],
  ◌∷◌, arith, ◌==◌, nat_eq, string_eq, pair_eq, ≡→eq, ne→neq, Bool-cases, is_some, All, eq-cases,
  ids_eq,
}
use templehe_consign.Calendar.{check_conflict, Maps, end_of, ranges_overlap, in_window, is_ignored}
use templehe_consign.Calendar.Conflicts.{check_conflict_silent, LeavesRoom}

-- Two events that stand, of one appraiser, at one time.
abbrev pub clashes : CalendarEvent → CalendarEvent → Bool
clashes e f =
    (e.appraiser_id == f.appraiser_id)
    && (not (is_some e.cancelled_at)
        && (not (is_some f.cancelled_at)
            && ranges_overlap e.scheduled_at (end_of e) f.scheduled_at (end_of f)))

abbrev pub IsClear : List CalendarEvent → Type 0
IsClear [] = Unit
IsClear (e ∷ es) = All (λ f. clashes e f ≡ false) es × IsClear es

-- No appointment is longer than a day; the API admits eight hours (api/schemas/calendar.py).
abbrev pub IsShort : List CalendarEvent → Type 0
IsShort = All (λ e. e.duration_minutes ≤ 1440)

-- An event that leaves room, if it is near, does not clash.
room_no_clash :
    (m : Maps) (new e : CalendarEvent) (ignore : Option ℕ)
    → new.duration_minutes ≤ 1440
    → e.duration_minutes ≤ 1440
    → is_ignored ignore e.id ≡ false
    → (in_window new.appraiser_id new.scheduled_at ignore e ≡ true
        → LeavesRoom m new.scheduled_at (end_of new) new.site_address e)
    → clashes new e ≡ false
room_no_clash m new e ignore sn se i h =
    elim (Bool-cases (in_window new.appraiser_id new.scheduled_at ignore e)) [
      | inl w ↦ (let room = h w in ground arith)
      | inr w ↦ ground arith
    ]

-- If the search is silent, the proposed event clashes with no other one.
pub silent_no_clash :
    (m : Maps) (new : CalendarEvent) (ignore : Option ℕ) (es : List CalendarEvent)
    → new.duration_minutes ≤ 1440
    → IsShort es
    → check_conflict m new.appraiser_id new.scheduled_at (end_of new) new.site_address ignore es
      ≡ none
    → All (λ e. is_ignored ignore e.id ≡ false → clashes new e ≡ false) es
silent_no_clash m new ignore es sn short h = go es short (
    check_conflict_silent m new.appraiser_id new.scheduled_at (end_of new) new.site_address ignore
      es h)
  where
    go :
        (fs : List CalendarEvent)
        → IsShort fs
        → All
            (λ e.
              in_window new.appraiser_id new.scheduled_at ignore e ≡ true
              → LeavesRoom m new.scheduled_at (end_of new) new.site_address e)
            fs
        → All (λ e. is_ignored ignore e.id ≡ false → clashes new e ≡ false) fs
    go [] s r = tt
    go (e ∷ fs) s r = (λ i. room_no_clash m new e ignore sn s.0 i r.0, go fs s.1 r.1)

pub clashes_comm : (e f : CalendarEvent) → clashes e f ≡ clashes f e
clashes_comm e f = ground arith

-- An event may be replaced by one that clashes with none of the others.
module _ (i : ℕ) (new : CalendarEvent) (same : new.id ≡ i) where
  abbrev replaced : List CalendarEvent → List CalendarEvent
  replaced = update event_id i (λ _. new)

  abbrev Apart : List CalendarEvent → Type 0
  Apart = All (λ f. f.id ≢ i → clashes new f ≡ false)

  -- One event against the replaced list.
  All-replaced :
      (e : CalendarEvent) (es : List CalendarEvent)
      → e.id ≢ i
      → clashes new e ≡ false
      → All (λ f. clashes e f ≡ false) es
      → All (λ f. clashes e f ≡ false) (replaced es)
  All-replaced e [] n c a = tt
  All-replaced e (f ∷ es) n c a = ground (arith, a.0, clashes_comm e new, All-replaced e es n c a.1)

  -- The new event against the rest of a list that has no other row with the id.
  All-new :
      (es : List CalendarEvent)
      → find event_id i es ≡ none
      → Apart es
      → All (λ f. clashes new f ≡ false) (replaced es)
  All-new [] h a = tt
  All-new (f ∷ es) h a = elim (eq-cases i f.id) [
    | inl e ↦ absurd (ground arith)
    | inr n ↦ ground (arith, a.0 (λ p. n (sym p)), All-new es (ground arith) a.1)
  ]

  pub update-IsClear :
      (es : List CalendarEvent)
      → IsUnique event_id es
      → Apart es
      → IsClear es
      → IsClear (replaced es)
  update-IsClear [] u a c = tt
  update-IsClear (f ∷ es) u a c = elim (eq-cases i f.id) [
    | inl e ↦
        rw (≡→eq i f.id e)
          (All-new es (ap (λ k. find event_id k es) e ∙ u.0) a.1, update-IsClear es u.1 a.1 c.1)
    | inr n ↦ rw (ne→neq i f.id n) (
      All-replaced f es (λ p. n (sym p)) (a.0 (λ p. n (sym p))) c.0,
      update-IsClear es u.1 a.1 c.1,
    )
  ]

  pub update-IsShort :
      (es : List CalendarEvent) → new.duration_minutes ≤ 1440 → IsShort es → IsShort (replaced es)
  update-IsShort [] n s = tt
  update-IsShort (f ∷ es) n s = ground (arith, update-IsShort es n s.1)
