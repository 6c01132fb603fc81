-- ===== src/Tests/QueueRuns.antt =====
-- One e-mail and one Slack message in the queue, and a worker's rounds on them.
use templehe_consign.Base.{
  ℕ, ◌≤◌, ◌≡◌, refl, Bool, true, false, none, some, List, [], ◌∷◌, map, arith, nat_eq, string_eq,
  pair_eq, length, All, ids_eq, int_eq,
}
use templehe_consign.Jobs.{
  NotificationJob, Jobs, Message, Payload, no_payload, job_id, enqueue, is_channel, is_pending,
  new_job, claim_next_batch, any_of,
}
use templehe_consign.Base.Result.{ok}
use templehe_consign.Jobs.Dispatch.{Transport, sent, answer}
use templehe_consign.Jobs.Enqueue.{queue, enqueue_again}
use templehe_consign.Jobs.Batches.{claim_twice, Flipped}
use templehe_consign.Jobs.Attempts.{tries, tries_end}

abbrev payload : Payload
payload = record no_payload { to_email = some "a@b.c"; subject = some "s"; html_body = some "h" }

abbrev mail : Message
mail = record {
  key = ("status_update", (1 ∷ [], "listed"));
  to_user = some 9;
  via = "email";
  kind = "status_listed";
  content = payload;
}

abbrev later_mail : Message
later_mail = record mail { kind = "status_again" }

abbrev mail_job : NotificationJob
mail_job = new_job 1 1000 mail

abbrev empty_mail : NotificationJob
empty_mail = new_job 2 1000 (record mail { content = no_payload })

abbrev slack_job : NotificationJob
slack_job =
    new_job 3 1000 (record mail { via = "slack"; content = record no_payload { text = some "hi" } })

abbrev waiting : Jobs
waiting = mail_job ∷ []

abbrev unlocked : ℕ → Bool
unlocked i = false

-- Everything is configured; Slack is busy.
abbrev world : Transport
world = record {
  send_email = λ j. sent;
  twilio_configured = true;
  send_sms = λ j. sent;
  slack_configured = true;
  post_slack = λ j. answer 503 "busy";
  apns_configured = true;
  post_apns = λ j. answer 200 "";
}

abbrev rounds : List (Transport × ℕ)
rounds = (world, 1) ∷ (world, 2) ∷ (world, 3) ∷ (world, 4) ∷ (world, 5) ∷ []

is_email : is_channel "email" ≡ true
unfolding is_channel
is_email = refl

tries_end_example : is_pending (tries rounds slack_job).status ≡ false
tries_end_example = tries_end rounds slack_job (omega arith) (λ h. omega arith)

abbrev two_due : Jobs
two_due = mail_job ∷ slack_job ∷ []

abbrev later_batch : Jobs
later_batch = (claim_next_batch 10 2500 unlocked (claim_next_batch 1 2000 unlocked two_due).1).0

-- The first worker takes one job and the second the other.
claim_twice_example :
    (length (claim_next_batch 1 2000 unlocked two_due).0 ≤ 1)
    × (length later_batch ≤ 10)
    × All (Flipped 2000 unlocked two_due) (claim_next_batch 1 2000 unlocked two_due).0
    × All (Flipped 2500 unlocked (claim_next_batch 1 2000 unlocked two_due).1) later_batch
    × All
        (λ j. any_of (map job_id (claim_next_batch 1 2000 unlocked two_due).0) j.id ≡ false)
        later_batch
claim_twice_example = claim_twice 1 2000 10 2500 unlocked unlocked two_due (refl, (refl, tt))

enqueue_again_example :
    enqueue 4 2000 none later_mail (queue [] (enqueue 1 1000 none mail []))
    ≡ ok (none, queue [] (enqueue 1 1000 none mail []))
enqueue_again_example =
    enqueue_again 1 4 1000 2000 none none mail later_mail [] is_email is_email refl

enqueues : enqueue 1 1000 none mail [] ≡ ok (some mail_job, mail_job ∷ [])
unfolding enqueue is_channel
enqueues = refl
