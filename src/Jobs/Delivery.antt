-- ===== src/Jobs/Delivery.antt =====
-- _dispatch_email and _dispatch_slack of api/services/notification_service.py under process_job:
-- which jobs are delivered, tried again or failed.
use templehe_consign.Base.{
  ℕ, ◌+◌, ◌<◌, String, ◌≡◌, ◌↔◌, Bool, true, ◌&&◌, arith, nat_eq, string_eq, pair_eq, ids_eq,
  int_eq,
}
use templehe_consign.Jobs.{NotificationJob, Payload, pending, delivered}
use templehe_consign.Jobs.Dispatch.{
  Transport, truthy, sent, answer, dispatch, dispatch_email, dispatch_slack, slack_transient,
}
use templehe_consign.Jobs.Process.{attempt}

-- The fields that an e-mail job must carry, all three of them and none empty.
abbrev pub has_email_fields : Payload → Bool
has_email_fields p = truthy p.to_email && (truthy p.subject && truthy p.html_body)

-- An e-mail job with the three fields is delivered by an attempt exactly if the mail client does
-- not raise.
pub email_delivered :
    (w : Transport) (clock : ℕ) (j : NotificationJob)
    → j.channel ≡ "email"
    → has_email_fields j.payload ≡ true
    → ((attempt w clock j).status ≡ delivered) ↔ (w.send_email j ≡ sent)
unfolding attempt dispatch dispatch_email
email_delivered w clock j c h = rw c (ground arith, ground arith)

-- With Slack configured and attempts remaining after this one, a message with a text that Slack
-- answers is pending again exactly if the code of the answer is transient.
pub slack_retried :
    (w : Transport) (clock : ℕ) (j : NotificationJob) (code : ℕ) (text : String)
    → j.channel ≡ "slack"
    → truthy j.payload.text ≡ true
    → w.slack_configured ≡ true
    → w.post_slack j ≡ answer code text
    → j.attempts + 1 < j.max_attempts
    → ((attempt w clock j).status ≡ pending) ↔ (slack_transient code ≡ true)
unfolding attempt dispatch dispatch_slack
slack_retried w clock j code text c t k r m = rw c (ground arith, ground arith)
