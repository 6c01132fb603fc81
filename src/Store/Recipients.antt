-- ===== src/Store/Recipients.antt =====
-- The channel on which a user is notified, `resolve_channel` of
-- api/services/notification_preferences_service.py.
use templehe_consign.Table.{find}
use templehe_consign.Base.{
  String, none, some, if◌then◌else◌, ◌==◌, nat_eq, string_eq, pair_eq, ids_eq,
}
use templehe_consign.Store.{given, User, Db, Via, by_email, by_sms, preference_user}

pub record ResolvedChannel : Type 0 where
  pub channel : Via
  pub destination : String

abbrev by_mail : User → ResolvedChannel
by_mail u = record { channel = by_email; destination = u.email }

-- Every branch but that of an SMS preference with a phone number ends in e-mail.
unfoldable pub resolve_channel : User → Db → ResolvedChannel
resolve_channel u db = elim (find preference_user u.id db.preferences) [
  | none ↦ by_mail u
  | some pref ↦
      if pref.channel == "sms"
      then elim (given pref.phone_number) [
        | none ↦ by_mail u
        | some phone ↦ record { channel = by_sms; destination = phone }
      ]
      else by_mail u
]
