-- ===== src/Sessions/Rotation.antt =====
-- An issued token can be rotated: api/services/session_service.py.
use templehe_consign.Sessions.{
  rotated, is_usable, new_session, revoked, days_long, issue_refresh_token, validate_and_rotate,
  UserSession, Sessions, session_id, session_hash, Draw,
}
use templehe_consign.Base.{
  ℕ, ◌+◌, ◌<◌, String, ◌≡◌, refl, ap, true, none, some, ◌∷◌, arith, nat_eq, string_eq, pair_eq,
  ids_eq, int_eq,
}
use templehe_consign.Table.{find, update, find-update-none, find-update_by_none, find-cons_self}
use templehe_consign.Sessions.Rows.{issue_refresh_token_inv}

module _ (sha256_hex : String → String) (days : ℕ) where
  usable :
      (user at now : ℕ) (draw : Draw)
      → now < at + days_long days
      → is_usable now (new_session sha256_hex days user at draw) ≡ true
  usable user at now draw before = ground arith

  issue_free :
      (user now : ℕ) (draw : Draw) (t : Sessions)
      → find session_hash (sha256_hex draw.raw_token) t ≡ none
      → find session_id draw.id t ≡ none
      → issue_refresh_token sha256_hex days user now draw t
        ≡ some (draw.raw_token, new_session sha256_hex days user now draw ∷ t)
  unfolding issue_refresh_token
  issue_free user now draw t h i = ground arith

  usable_rotates :
      (raw : String) (now later : ℕ) (draw : Draw) (t : Sessions) {s : UserSession}
      → find session_hash (sha256_hex raw) t ≡ some s
      → is_usable now s ≡ true
      → find session_hash (sha256_hex draw.raw_token) t ≡ none
      → find session_id draw.id t ≡ none
      → validate_and_rotate sha256_hex days raw now later draw t
        ≡ some (
          some (s.user_id, draw.raw_token),
          new_session sha256_hex days s.user_id later draw ∷ update session_id s.id (revoked now) t,
        )
  unfolding validate_and_rotate
  usable_rotates raw now later draw t {s} f u h i =
      let free =
        find-update_by_none session_hash session_id (sha256_hex draw.raw_token) s.id (revoked now) t
          (λ y. refl) h in
      let free_id = find-update-none session_id draw.id s.id (revoked now) t (λ y. refl) i in
      rw (f, u, validate_and_rotate)
        (ap (rotated s.user_id)
          (issue_free s.user_id later draw (update session_id s.id (revoked now) t) free free_id))

  -- A token that was issued can be rotated: before it expires, it gives its user and the token that
  -- is drawn, if the draw repeats neither an id nor the hash of a token of the table.
  pub issue-rotate :
      (user at now later : ℕ) (draw draw' : Draw) (t : Sessions) {token : String} {t' : Sessions}
      → issue_refresh_token sha256_hex days user at draw t ≡ some (token, t')
      → now < at + days_long days
      → find session_hash (sha256_hex draw'.raw_token) t' ≡ none
      → find session_id draw'.id t' ≡ none
      → (t'' : Sessions) × (validate_and_rotate sha256_hex days token now later draw' t'
          ≡ some (some (user, draw'.raw_token), t''))
  issue-rotate user at now later draw draw' t {token} {t'} h before fresh fresh_id =
      let s = new_session sha256_hex days user at draw in
      let (shape, same, _, _) = issue_refresh_token_inv sha256_hex days user at draw t h in
      let there : find session_hash (sha256_hex token) t' ≡ some s =
        rw (same, shape) (find-cons_self session_hash s t) in
      (
        _,
        usable_rotates token now later draw' t' there (usable user at now draw before) fresh
            fresh_id,
      )
