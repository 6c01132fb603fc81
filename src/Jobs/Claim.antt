-- ===== src/Jobs/Claim.antt =====
-- claim_next_batch of api/services/notification_service.py: what a batch holds, and what it leaves
-- to others.
use templehe_consign.Base.{
  ℕ, zero, suc, ◌≤◌, ◌≡◌, inl, inr, Bool, true, false, List, [], ◌∷◌, map, arith, nat_eq, string_eq,
  pair_eq, Bool-cases, length, select, All, eq-cases, ids_eq, All-sort_by, int_eq,
}
use templehe_consign.Jobs.{
  processing, job_id, any_of, mark, is_due, claim_next_batch, NotificationJob, Jobs, by_schedule,
  take,
}

module _ (P : NotificationJob → Type 0) where
  pub All-take : (n : ℕ) (t : Jobs) → All P t → All P (take n t)
  All-take zero t a = tt
  All-take (suc n) [] a = tt
  All-take (suc n) (j ∷ t) a = (a.0, All-take n t a.1)

pub All-select_test : (p : NotificationJob → Bool) (t : Jobs) → All (λ j. p j ≡ true) (select p t)
All-select_test p [] = tt
All-select_test p (j ∷ t) = ground (arith, All-select_test p t)

pub length-take : (n : ℕ) (t : Jobs) → length (take n t) ≤ n
length-take zero t = omega arith
length-take (suc n) [] = omega arith
length-take (suc n) (j ∷ t) = omega (arith, length-take n t)

-- The ids that a batch takes.
abbrev pub claimed : ℕ → ℕ → (ℕ → Bool) → Jobs → Jobs
claimed limit clock locked t = take limit (by_schedule (select (is_due clock locked) t))

claimed-due :
    (limit clock : ℕ) (locked : ℕ → Bool) (t : Jobs)
    → All (λ j. is_due clock locked j ≡ true) (claimed limit clock locked t)
claimed-due limit clock locked t =
    All-take due limit (by_schedule (select (is_due clock locked) t)) (
      All-sort_by (λ j. j.scheduled_for) due (select (is_due clock locked) t)
        (All-select_test (is_due clock locked) t))
  where
    due : NotificationJob → Type 0
    due j = is_due clock locked j ≡ true

-- The rows with these ids are in the hands of a worker.
abbrev pub Processing : List ℕ → Jobs → Type 0
Processing ids = All (λ j. any_of ids j.id ≡ true → j.status ≡ processing)

pub mark-Processing : (ids : List ℕ) (t : Jobs) → Processing ids (map (mark ids) t)
mark-Processing ids [] = tt
mark-Processing ids (j ∷ t) = (λ h. ground arith, mark-Processing ids t)

due-Processing :
    (ids : List ℕ) (clock : ℕ) (locked : ℕ → Bool) (t : Jobs)
    → Processing ids t
    → All (λ j. any_of ids j.id ≡ false) (select (is_due clock locked) t)
due-Processing ids clock locked [] a = tt
due-Processing ids clock locked (j ∷ t) a =
    ground (arith, a.0, due-Processing ids clock locked t a.1)

-- What holds of the rows of some ids holds of an id that is among them.
pub All-any_of :
    (Q : ℕ → Type 0) (js : Jobs) (i : ℕ)
    → All (λ j. Q j.id) js
    → any_of (map job_id js) i ≡ true
    → Q i
All-any_of Q [] i a h = cc
All-any_of Q (j ∷ js) i a h = elim (eq-cases i j.id) [
  | inl e ↦ rw e a.0
  | inr n ↦ All-any_of Q js i a.1 (ground (arith, n))
]

All-select_imp :
    (p : NotificationJob → Bool) (Q : NotificationJob → Type 0) (t : Jobs)
    → ((j : NotificationJob) → p j ≡ true → Q j)
    → All Q (select p t)
All-select_imp p Q [] f = tt
All-select_imp p Q (j ∷ t) f = elim (Bool-cases (p j)) [
  | inl e ↦ rw e (f j e, All-select_imp p Q t f)
  | inr e ↦ rw e (All-select_imp p Q t f)
]

-- A batch takes at most `limit` jobs, each of them pending, due and not locked by another worker;
-- it leaves the rows with their ids processing, and returns only rows with their ids.
pub claim_batch :
    (limit clock : ℕ) (locked : ℕ → Bool) (t : Jobs)
    → let taken = claimed limit clock locked t in
      (length taken ≤ limit)
      × All (λ j. is_due clock locked j ≡ true) taken
      × Processing (map job_id taken) (claim_next_batch limit clock locked t).1
      × All (λ j. any_of (map job_id taken) j.id ≡ true) (claim_next_batch limit clock locked t).0
unfolding claim_next_batch
claim_batch limit clock locked t =
    let ids = map job_id (claimed limit clock locked t) in
    (
      length-take limit (by_schedule (select (is_due clock locked) t)),
      claimed-due limit clock locked t,
      mark-Processing ids t,
      All-select_test (λ j. any_of ids j.id) (map (mark ids) t),
    )

-- As long as the rows of some ids are processing, no batch that is claimed contains a row of one
-- of these ids.
pub claim_once :
    (limit clock : ℕ) (locked : ℕ → Bool) (t : Jobs) (ids : List ℕ)
    → Processing ids t
    → All (λ j. any_of ids j.id ≡ false) (claim_next_batch limit clock locked t).0
unfolding claim_next_batch
claim_once limit clock locked t ids a =
    All-select_imp (λ j. any_of taken j.id) (λ j. any_of ids j.id ≡ false) (map (mark taken) t)
      (λ j h. All-any_of (λ i. any_of ids i ≡ false) (claimed limit clock locked t) j.id apart h)
  where
    taken : List ℕ
    taken = map job_id (claimed limit clock locked t)

    apart : All (λ j. any_of ids j.id ≡ false) (claimed limit clock locked t)
    apart =
        All-take (λ j. any_of ids j.id ≡ false) limit (by_schedule (select (is_due clock locked) t))
          (All-sort_by (λ j. j.scheduled_for) (λ j. any_of ids j.id ≡ false)
            (select (is_due clock locked) t) (due-Processing ids clock locked t a))
