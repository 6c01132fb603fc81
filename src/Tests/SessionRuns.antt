-- ===== src/Tests/SessionRuns.antt =====
-- Refresh tokens at concrete calls, with a hash that keeps the text.
use templehe_consign.Base.{
  ℕ, String, ◌≡◌, refl, ◌≢◌, none, some, List, [], ◌∷◌, arith, nat_eq, string_eq, pair_eq, ids_eq,
  int_eq,
}
use templehe_consign.Sessions.{
  Sessions, Draw, issue_refresh_token, validate_and_rotate, revoke_token, revoke_all_for_user, Call,
  login, refresh, logout, perform_all, new_session, revoked,
}
use templehe_consign.Sessions.Spending.{rotate_once}
use templehe_consign.Sessions.Rotation.{issue-rotate}
use templehe_consign.Sessions.Closing.{locked_out}

abbrev plain : String → String
plain s = s

abbrev draw : ℕ → String → Draw
draw id token = record { id = id; raw_token = token; ip_address = none; user_agent = none }

-- A user logs in, and refreshes once.
abbrev logged_in : Sessions
logged_in = new_session plain 7 5 1000 (draw 1 "a") ∷ []

abbrev used : Sessions
used =
    new_session plain 7 5 2000 (draw 2 "b")
    ∷ revoked 2000 (new_session plain 7 5 1000 (draw 1 "a"))
    ∷ []

refreshed :
    validate_and_rotate plain 7 "a" 2000 2000 (draw 2 "b") logged_in ≡ some (some (5, "b"), used)
unfolding validate_and_rotate issue_refresh_token
refreshed = refl

abbrev later_calls : List Call
later_calls = login 5 3000 (draw 3 "c") ∷ refresh "b" 4000 4000 (draw 4 "d") ∷ []

rotate_once_example :
    validate_and_rotate plain 7 "a" 5000 5000 (draw 9 "z") (perform_all plain 7 later_calls used)
    ≡ some (none, perform_all plain 7 later_calls used)
rotate_once_example =
    rotate_once plain 7 "a" 2000 2000 (draw 2 "b") logged_in ((refl, tt), (refl, tt)) refreshed
      later_calls 5000 5000 (draw 9 "z")

issued : issue_refresh_token plain 7 5 1000 (draw 1 "a") [] ≡ some ("a", logged_in)
unfolding issue_refresh_token
issued = refl

issue-rotate_example :
    (t : Sessions) × (validate_and_rotate plain 7 "a" 2000 2000 (draw 2 "b") logged_in
      ≡ some (some (5, "b"), t))
issue-rotate_example =
    issue-rotate plain 7 5 1000 2000 2000 (draw 1 "a") (draw 2 "b") [] issued (ground arith) refl
      refl

-- Another user's session beside that of a user whose sessions are revoked.
abbrev two : Sessions
two = new_session plain 7 6 1000 (draw 8 "other") ∷ logged_in

abbrev closed : Sessions
closed =
    new_session plain 7 6 1000 (draw 8 "other")
    ∷ revoked 1500 (new_session plain 7 5 1000 (draw 1 "a"))
    ∷ []

other_goes_on :
    validate_and_rotate plain 7 "other" 2000 2000
      (draw 2 "b")
      (perform_all plain 7 (logout "a" 1600 ∷ []) (revoke_all_for_user 5 1500 two))
    ≡ some (
      some (6, "b"),
      new_session plain 7 6 2000 (draw 2 "b")
          ∷ revoked 2000 (new_session plain 7 6 1000 (draw 8 "other"))
          ∷ revoked 1500 (new_session plain 7 5 1000 (draw 1 "a"))
          ∷ [],
    )
unfolding validate_and_rotate issue_refresh_token revoke_all_for_user revoke_token
other_goes_on = refl

locked_out_example : ◌≢◌ {A = ℕ} 6 5
locked_out_example =
    locked_out plain 7 5 1500 two (logout "a" 1600 ∷ []) "other" 2000 2000 (draw 2 "b") (tt, tt)
      other_goes_on
