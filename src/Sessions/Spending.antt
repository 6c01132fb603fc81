-- ===== src/Sessions/Spending.antt =====
-- Refresh tokens are good for one use: sequences of calls of api/services/session_service.py.
use templehe_consign.Sessions.{
  Call, login, refresh, logout, revoke_all, perform, perform_all, after_issue, revoked,
  validate_and_rotate, Sessions, session_id, session_hash, Draw,
}
use templehe_consign.Table.{update, find-update_by_id}
use templehe_consign.Base.{
  ℕ, String, ◌≡◌, refl, subst, none, some, List, [], ◌∷◌, nat_eq, string_eq, pair_eq, ids_eq,
  int_eq,
}
use templehe_consign.Sessions.Rows.{
  IsTable, IsSpent, revoke_row-IsTable, issue-IsTable, issue-IsSpent, validate_and_rotate_inv,
}
use templehe_consign.Sessions.Calls.{
  rotation-IsTable, rotation-IsSpent, logout-IsTable, logout-IsSpent, close_all-IsTable,
  close_all-IsSpent,
}

module _ (sha256_hex : String → String) (days : ℕ) where
  pub perform-IsTable :
      (c : Call) (t : Sessions) → IsTable t → IsTable (perform sha256_hex days c t)
  perform-IsTable (login user now draw) t v = issue-IsTable sha256_hex days user now draw t v
  perform-IsTable (refresh raw now later draw) t v =
      rotation-IsTable sha256_hex days raw now later draw t v
  perform-IsTable (logout raw now) t v = logout-IsTable sha256_hex days raw now t v
  perform-IsTable (revoke_all user now) t v = close_all-IsTable sha256_hex days user now t v

  perform-IsSpent :
      (h : String) (c : Call) (t : Sessions)
      → IsTable t
      → IsSpent h t
      → IsSpent h (perform sha256_hex days c t)
  perform-IsSpent h (login user now draw) t v p = issue-IsSpent sha256_hex days h user now draw t p
  perform-IsSpent h (refresh raw now later draw) t v p =
      rotation-IsSpent sha256_hex days h raw now later draw t v p
  perform-IsSpent h (logout raw now) t v p = logout-IsSpent sha256_hex days h raw now t v p
  perform-IsSpent h (revoke_all user now) t v p = close_all-IsSpent sha256_hex days h user now t p

  perform_all-IsSpent :
      (h : String) (cs : List Call) (t : Sessions)
      → IsTable t
      → IsSpent h t
      → IsSpent h (perform_all sha256_hex days cs t)
  perform_all-IsSpent h [] t v p = p
  perform_all-IsSpent h (c ∷ cs) t v p =
      perform_all-IsSpent h cs (perform sha256_hex days c t) (perform-IsTable c t v)
        (perform-IsSpent h c t v p)

  spent_refused :
      (raw : String) (now later : ℕ) (draw : Draw) (t : Sessions)
      → IsSpent (sha256_hex raw) t
      → validate_and_rotate sha256_hex days raw now later draw t ≡ some (none, t)
  unfolding validate_and_rotate
  spent_refused raw now later draw t (s, f, p) = rw (f, p, validate_and_rotate) refl

  -- A refresh token is good for one rotation: after a call that answers with a new token, and after
  -- any calls on sessions that follow, the old token is refused and the table stays as it is, if both
  -- columns were unique at the start.
  pub rotate_once :
      (raw : String) (now later : ℕ) (draw : Draw) (t : Sessions) {user : ℕ} {token : String}
      {t' : Sessions}
      → IsTable t
      → validate_and_rotate sha256_hex days raw now later draw t ≡ some (some (user, token), t')
      → (cs : List Call) (now' later' : ℕ) (draw' : Draw)
      → validate_and_rotate sha256_hex days raw now' later' draw'
          (perform_all sha256_hex days cs t')
        ≡ some (none, perform_all sha256_hex days cs t')
  rotate_once raw now later draw t {user} {token} {t'} v h cs now' later' draw' =
      let (s, f, _, _, i) = validate_and_rotate_inv sha256_hex days raw now later draw t h in
      let table = revoke_row-IsTable s.id now t v in
      let revoked_now : IsSpent (sha256_hex raw) (update session_id s.id (revoked now) t) = (
        revoked now s,
        find-update_by_id session_hash session_id (sha256_hex raw) (revoked now) t (λ y. refl) v.1
            f,
        refl,
      ) in
      let spent : IsSpent (sha256_hex raw) t' =
        subst
          (λ w. IsSpent (sha256_hex raw) (after_issue (update session_id s.id (revoked now) t) w)) i
          (issue-IsSpent sha256_hex days (sha256_hex raw) user later draw
            (update session_id s.id (revoked now) t) revoked_now) in
      let table' : IsTable t' =
        subst (λ w. IsTable (after_issue (update session_id s.id (revoked now) t) w)) i
          (issue-IsTable sha256_hex days user later draw (update session_id s.id (revoked now) t)
            table) in
      spent_refused raw now' later' draw' (perform_all sha256_hex days cs t')
        (perform_all-IsSpent (sha256_hex raw) cs t' table' spent)
