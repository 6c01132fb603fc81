-- ===== src/Calendar/Conflicts.antt =====
-- _check_conflict of api/services/calendar_service.py: what its silence means for the other
-- events.
use templehe_consign.Store.{CalendarEvent}
use templehe_consign.Base.{
  ℕ, ◌+◌, ◌≤◌, String, ◌≡◌, refl, ◌⊎◌, inl, inr, Bool, true, false, Option, none, List, [], ◌∷◌,
  arith, if◌then◌else◌, nat_eq, string_eq, pair_eq, Option-cases, select, All, ids_eq, sort_by,
  All-sort_by_inv,
}
use templehe_consign.Calendar.{
  Maps, end_of, resolve_buffer, check_one, first_conflict, in_window, check_conflict,
}

-- The proposed slot and an event leave each other room: one ends, with the drive to the other's
-- site, before the other starts.
abbrev pub LeavesRoom : Maps → ℕ → ℕ → Option String → CalendarEvent → Type 0
LeavesRoom m start finish address e =
    (end_of e + resolve_buffer m e.site_address address ≤ start)
    ⊎ (finish + resolve_buffer m address e.site_address ≤ e.scheduled_at)

check_one_silent :
    (m : Maps) (start finish : ℕ) (address : Option String) (e : CalendarEvent)
    → check_one m start finish address e ≡ none
    → LeavesRoom m start finish address e
unfolding check_one
check_one_silent m start finish address e h = ground arith

first_conflict_silent :
    (m : Maps) (start finish : ℕ) (address : Option String) (es : List CalendarEvent)
    → first_conflict m start finish address es ≡ none
    → All (LeavesRoom m start finish address) es
unfolding first_conflict
first_conflict_silent m start finish address [] h = tt
first_conflict_silent m start finish address (e ∷ es) h =
    elim (Option-cases (check_one m start finish address e)) [
      | inr (c, f) ↦ absurd (ground arith)
      | inl f ↦ (
        check_one_silent m start finish address e f,
        first_conflict_silent m start finish address es (ground arith),
      )
    ]

All-select_test :
    (P : CalendarEvent → Type 0) (p : CalendarEvent → Bool) (es : List CalendarEvent)
    → All P (select p es)
    → All (λ e. p e ≡ true → P e) es
All-select_test P p [] a = tt
All-select_test P p (e ∷ es) a = go (All-select_test P p es) (p e) refl a
  where
    rest : List CalendarEvent
    rest = select p es

    go :
        (All P rest → All (λ y. p y ≡ true → P y) es)
        → (b : Bool) → p e ≡ b
        → All P (if b then e ∷ rest else rest)
        → All (λ y. p y ≡ true → P y) (e ∷ es)
    go ih true h (x, r) = (λ _. x, ih r)
    go ih false h r = (λ t. cc (h, t), ih r)

-- If the search finds no conflict, the slot leaves room for the drive to and from every event of
-- the appraiser that stands and starts within a day of it.
pub check_conflict_silent :
    (m : Maps) (appraiser start finish : ℕ) (address : Option String) (ignore : Option ℕ)
    (es : List CalendarEvent)
    → check_conflict m appraiser start finish address ignore es ≡ none
    → All (λ e. in_window appraiser start ignore e ≡ true → LeavesRoom m start finish address e) es
unfolding check_conflict
check_conflict_silent m appraiser start finish address ignore es h =
    let window = in_window appraiser start ignore in
    let room = LeavesRoom m start finish address in
    All-select_test room window es (
      All-sort_by_inv (λ e. e.scheduled_at) room (select window es)
        (first_conflict_silent m start finish address
          (sort_by (λ e. e.scheduled_at) (select window es)) h))
