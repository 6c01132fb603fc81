-- ===== src/Jobs/Batches.antt =====
-- claim_next_batch of api/services/notification_service.py, called by two workers one after the
-- other.
use templehe_consign.Jobs.Claim.{
  length-take, Processing, All-take, claimed, claim_once, mark-Processing, All-any_of,
  All-select_test,
}
use templehe_consign.Base.{
  ℕ, suc, ◌≤◌, ◌≡◌, refl, sym, ap, ◌∙◌, inl, inr, Bool, true, false, not, ◌&&◌, none, some, List,
  [], ◌∷◌, map, arith, leb, nat_eq, string_eq, pair_eq, Bool-cases, length, select, All, All-map,
  eq-cases, ids_eq, All-sort_by, int_eq,
}
use templehe_consign.Jobs.{
  JobStatus, delivered, skipped, failed, processing, pending, is_pending, job_id, any_of, mark,
  is_due, claim_next_batch, NotificationJob, Jobs, by_schedule,
}
use templehe_consign.Table.{find, IsUnique, find-map-some, map-IsUnique, All-found}

All-select_both :
    (p : NotificationJob → Bool) (Q : NotificationJob → Type 0) (t : Jobs)
    → All Q t
    → All (λ j. Q j × (p j ≡ true)) (select p t)
All-select_both p Q [] a = tt
All-select_both p Q (j ∷ t) a = elim (Bool-cases (p j)) [
  | inl e ↦ rw e ((a.0, e), All-select_both p Q t a.1)
  | inr e ↦ rw e (All-select_both p Q t a.1)
]

-- A job that was waiting in the table for its turn, and that no other worker had locked.
abbrev pub Waiting : ℕ → (ℕ → Bool) → Jobs → NotificationJob → Type 0
Waiting clock locked t j =
    (find job_id j.id t ≡ some j)
    × (j.status ≡ pending)
    × (j.scheduled_for ≤ clock)
    × (locked j.id ≡ false)

due-Waiting :
    (clock : ℕ) (locked : ℕ → Bool) (t : Jobs) (j : NotificationJob)
    → (find job_id j.id t ≡ some j) × (is_due clock locked j ≡ true)
    → Waiting clock locked t j
due-Waiting clock locked t j (f, d) = (f, status_of j.status d, ground arith, ground arith)
  where
    status_of :
        (s : JobStatus)
        → (is_pending s && leb j.scheduled_for clock && not (locked j.id)) ≡ true
        → s ≡ pending
    status_of pending e = refl
    status_of processing e = cc e
    status_of delivered e = cc e
    status_of skipped e = cc e
    status_of failed e = cc e

claimed-Waiting :
    (limit clock : ℕ) (locked : ℕ → Bool) (t : Jobs)
    → IsUnique job_id t
    → All (Waiting clock locked t) (claimed limit clock locked t)
claimed-Waiting limit clock locked t u = All-take (Waiting clock locked t) limit (by_schedule due) (
    All-sort_by (λ j. j.scheduled_for) (Waiting clock locked t) due
      (All-map due (due-Waiting clock locked t) (
        All-select_both (is_due clock locked) (λ j. find job_id j.id t ≡ some j) t
          (All-found job_id t u))))
  where
    due : Jobs
    due = select (is_due clock locked) t

-- A row of a batch is a job that was waiting, with its status flipped.
abbrev pub Flipped : ℕ → (ℕ → Bool) → Jobs → NotificationJob → Type 0
Flipped clock locked t row =
    (j : NotificationJob) × Waiting clock locked t j × (row ≡ record j { status = processing })

-- Of the rows of a table with a unique id, no more are taken by ids than there are ids.
select_none : (t : Jobs) → length (select (λ j. any_of [] j.id) t) ≡ 0
select_none [] = refl
select_none (j ∷ t) = select_none t

select_absent :
    (i : ℕ) (ids : List ℕ) (t : Jobs)
    → find job_id i t ≡ none
    → length (select (λ j. any_of (i ∷ ids) j.id) t) ≤ length (select (λ j. any_of ids j.id) t)
select_absent i ids [] h = omega arith
select_absent i ids (j ∷ t) h = ground (arith, select_absent i ids t)

select_one_more :
    (i : ℕ) (ids : List ℕ) (t : Jobs)
    → IsUnique job_id t
    → length (select (λ j. any_of (i ∷ ids) j.id) t)
      ≤ suc (length (select (λ j. any_of ids j.id) t))
select_one_more i ids [] u = omega arith
select_one_more i ids (j ∷ t) u = elim (eq-cases i j.id) [
  | inl e ↦ ground (arith, select_absent i ids t (rw e u.0))
  | inr n ↦ ground (arith, select_one_more i ids t u.1)
]

select_few :
    (ids : List ℕ) (t : Jobs)
    → IsUnique job_id t
    → length (select (λ j. any_of ids j.id) t) ≤ length ids
select_few [] t u = omega (arith, select_none t)
select_few (i ∷ ids) t u = omega (arith, select_few ids t u, select_one_more i ids t u)

length-ids : (js : Jobs) → length (map job_id js) ≡ length js
length-ids [] = refl
length-ids (j ∷ js) = ap suc (length-ids js)

module _ (limit clock : ℕ) (locked : ℕ → Bool) (t : Jobs) (u : IsUnique job_id t) where
  abbrev taken : List ℕ
  taken = map job_id (claimed limit clock locked t)

  mark-id : (j : NotificationJob) → (mark taken j).id ≡ j.id
  mark-id j = ground arith

  marked_row :
      (row j : NotificationJob)
      → find job_id row.id (map (mark taken) t) ≡ some row
      → any_of taken row.id ≡ true
      → find job_id j.id t ≡ some j
      → j.id ≡ row.id
      → row ≡ record j { status = processing }
  marked_row row j f a g e =
      let there = find-map-some job_id (mark taken) mark-id j.id t g in
      let flipped : mark taken j ≡ record j { status = processing } = rw (e, a) refl in
      let same : some row ≡ some (mark taken j) =
        sym f ∙ ap (λ i. find job_id i (map (mark taken) t)) (sym e) ∙ there in
      cc (same, flipped)

  row-Flipped :
      (row : NotificationJob)
      → (find job_id row.id (map (mark taken) t) ≡ some row) × (any_of taken row.id ≡ true)
      → Flipped clock locked t row
  row-Flipped row (f, a) =
      let (j, w, e) =
        All-any_of (λ i. (j : NotificationJob) × Waiting clock locked t j × (j.id ≡ i))
          (claimed limit clock locked t) row.id
          (All-map (claimed limit clock locked t) (λ j w. (j, w, refl))
            (claimed-Waiting limit clock locked t u))
          a in
      (j, w, marked_row row j f a w.0 e)

  rows-Flipped : All (Flipped clock locked t) (claim_next_batch limit clock locked t).0
  unfolding claim_next_batch
  rows-Flipped = All-map (select (λ j. any_of taken j.id) (map (mark taken) t)) row-Flipped (
      All-select_both (λ j. any_of taken j.id) (λ j. find job_id j.id (map (mark taken) t) ≡ some j)
        (map (mark taken) t)
        (All-found job_id (map (mark taken) t) (map-IsUnique job_id (mark taken) mark-id t u)))

  batch_limit : length (claim_next_batch limit clock locked t).0 ≤ limit
  unfolding claim_next_batch
  batch_limit = omega (
    arith,
    select_few taken (map (mark taken) t) (map-IsUnique job_id (mark taken) mark-id t u),
    length-ids (claimed limit clock locked t),
    length-take limit (by_schedule (select (is_due clock locked) t)),
  )

  after-IsUnique : IsUnique job_id (claim_next_batch limit clock locked t).1
  unfolding claim_next_batch
  after-IsUnique = map-IsUnique job_id (mark taken) mark-id t u

  after-Processing : Processing taken (claim_next_batch limit clock locked t).1
  unfolding claim_next_batch
  after-Processing = mark-Processing taken t

  -- An id that the batch does not take is in no row of it.
  batch_ids :
      (i : ℕ)
      → any_of taken i ≡ false
      → any_of (map job_id (claim_next_batch limit clock locked t).0) i ≡ false
  unfolding claim_next_batch
  batch_ids i n = elim (Bool-cases (any_of (map job_id rows) i)) [
    | inl e ↦ absurd (
        cc (
          n,
          All-any_of (λ k. any_of taken k ≡ true) rows i
              (All-select_test (λ j. any_of taken j.id) (map (mark taken) t)) e,
        ))
    | inr e ↦ e
  ]
    where
      rows : Jobs
      rows = select (λ j. any_of taken j.id) (map (mark taken) t)

-- In a table with one row for each id, let one worker claim a batch and then another, each with a
-- limit, a clock and locks of its own. Neither batch has more rows than its limit. The rows of each
-- were pending in the table that its worker found, due by its clock and not locked by others, and
-- are those jobs with the status flipped to processing; no job is in both batches.
pub claim_twice :
    (limit clock limit' clock' : ℕ) (locked locked' : ℕ → Bool) (t : Jobs)
    → IsUnique job_id t
    → let (batch, t') = claim_next_batch limit clock locked t in
      let batch' = (claim_next_batch limit' clock' locked' t').0 in
      (length batch ≤ limit)
      × (length batch' ≤ limit')
      × All (Flipped clock locked t) batch
      × All (Flipped clock' locked' t') batch'
      × All (λ j. any_of (map job_id batch) j.id ≡ false) batch'
claim_twice limit clock limit' clock' locked locked' t u = (
  batch_limit limit clock locked t u,
  batch_limit limit' clock' locked' t' (after-IsUnique limit clock locked t u),
  rows-Flipped limit clock locked t u,
  rows-Flipped limit' clock' locked' t' (after-IsUnique limit clock locked t u),
  All-map (claim_next_batch limit' clock' locked' t').0
      (λ j n. batch_ids limit clock locked t u j.id n)
      (claim_once limit' clock' locked' t' (taken limit clock locked t u)
        (after-Processing limit clock locked t u)),
)
  where
    t' : Jobs
    t' = (claim_next_batch limit clock locked t).1
