-- ===== src/Jobs/Dispatch.antt =====
-- Sending one job: the `_dispatch_*` functions of api/services/notification_service.py, and how
-- api/services/slack_dispatch_service.py and api/services/apns_dispatch_service.py read the replies
-- of the services that they call. The replies are parameters; of the text that an exception or an
-- error carries only the part that the service sent is kept. The device token that a permanent APNs
-- failure revokes is not part of this table.
use templehe_consign.Base.{
  ℕ, String, Bool, false, not, ◌&&◌, ◌||◌, Option, none, some, leb, if◌then◌else◌, ◌==◌, nat_eq,
  string_eq, pair_eq, ids_eq, strip, int_eq,
}
use templehe_consign.Jobs.{
  NotificationJob, JobError, missing_fields, not_configured, unknown_channel, permanent,
}

-- What a dispatch returns, or the exception that it raises. The error is written to the job.
pub data Outcome : Type 0 where
  delivers : Outcome
  skips fails : JobError → Outcome
  fails_silently : Outcome
  raises : String → Outcome

-- The answer of an HTTP service.
pub data Reply : Type 0 where
  no_connection : String → Reply
  answer : (status : ℕ) (text : String) → Reply

-- A call of the mail or SMS client: it returns, or raises with a text.
pub data Sent : Type 0 where
  sent : Sent
  broken : String → Sent

-- What the settings hold and what the outside world answers, for each job.
pub record Transport : Type 0 where
  pub send_email : NotificationJob → Sent
  pub twilio_configured : Bool
  pub send_sms : NotificationJob → Sent
  pub slack_configured : Bool
  pub post_slack : NotificationJob → Reply
  pub apns_configured : Bool
  pub post_apns : NotificationJob → Reply

-- `bool(payload.get(…))`
abbrev pub truthy : Option String → Bool
truthy none = false
truthy (some s) = not (s == "")

abbrev pub of_sent : Sent → Outcome
of_sent sent = delivers
of_sent (broken e) = raises e

unfoldable pub dispatch_email : Transport → NotificationJob → Outcome
dispatch_email w j =
    if truthy j.payload.to_email && (truthy j.payload.subject && truthy j.payload.html_body)
    then of_sent (w.send_email j)
    else fails (missing_fields "email payload missing to_email/subject/html_body")

unfoldable pub dispatch_sms : Transport → NotificationJob → Outcome
dispatch_sms w j =
    if w.twilio_configured
    then if truthy j.payload.to_number && truthy j.payload.body
      then of_sent (w.send_sms j)
      else fails (missing_fields "sms payload missing to_number/body")
    else skips (not_configured "sms_skipped_not_configured")

-- `send` of slack_dispatch_service with the handlers of `_dispatch_slack`: a 200 "ok" is delivered,
-- 429 and four 5xx codes are transient, anything else is permanent.
abbrev pub slack_transient : ℕ → Bool
slack_transient c = (c == 429) || (c == 500) || (c == 502) || (c == 503) || (c == 504)

abbrev pub of_slack : Reply → Outcome
of_slack (no_connection e) = raises e
of_slack (answer c text) =
    if (c == 200) && (strip text == "ok")
    then delivers
    else if slack_transient c
    then raises text
    else fails (permanent text)

unfoldable pub dispatch_slack : Transport → NotificationJob → Outcome
dispatch_slack w j =
    if truthy j.payload.text || truthy j.payload.body
    then if w.slack_configured
      then of_slack (w.post_slack j)
      else skips (not_configured "slack_skipped_not_configured")
    else fails (missing_fields "slack payload missing text")

-- `send` of apns_dispatch_service: 200 is delivered, 5xx is transient, the rest is permanent.
abbrev pub of_apns : Reply → Outcome
of_apns (no_connection e) = raises e
of_apns (answer c text) =
    if c == 200 then delivers else if leb 500 c then raises text else fails_silently

unfoldable pub dispatch_apns : Transport → NotificationJob → Outcome
dispatch_apns w j =
    if truthy j.payload.token
    then if w.apns_configured
      then of_apns (w.post_apns j)
      else skips (not_configured "apns_skipped_not_configured")
    else fails (missing_fields "apns payload missing token")

-- The choice of `process_job`.
unfoldable pub dispatch : Transport → NotificationJob → Outcome
dispatch w j =
    if j.channel == "email"
    then dispatch_email w j
    else if j.channel == "sms"
    then dispatch_sms w j
    else if j.channel == "slack"
    then dispatch_slack w j
    else if j.channel == "apns"
    then dispatch_apns w j
    else fails (unknown_channel j.channel)
