-- ===== src/Sessions/Closing.antt =====
-- Closed accounts: after revoke_all_for_user of api/services/session_service.py.
use templehe_consign.Sessions.{
  is_usable, login, refresh, logout, revoke_all, rotated, after_rotation, validate_and_rotate,
  revoke_token, Call, perform, perform_all, UserSession, Sessions, session_id, session_hash, Draw,
  revoked, revoke_all_for_user, issue_refresh_token, after_issue,
}
use templehe_consign.Table.{find, update, All-find, All-update}
use templehe_consign.Base.{
  ℕ, String, ◌≡◌, refl, subst, ◌∙◌, ◌≢◌, inl, inr, true, Option, none, some, List, [], ◌∷◌, arith,
  ◌==◌, nat_eq, string_eq, pair_eq, ≡→eq, Bool-cases, Option-cases, is_some, All, ids_eq, int_eq,
}
use templehe_consign.Sessions.Rows.{validate_and_rotate_inv, close}

-- Every session of the user has been revoked.
abbrev pub IsClosed : ℕ → Sessions → Type 0
IsClosed user t = All (λ s. s.user_id ≡ user → is_some s.revoked_at ≡ true) t

-- The user does not log in.
abbrev pub NotLogin : ℕ → Call → Type 0
NotLogin user (login u now draw) = u ≢ user
NotLogin user _ = Unit

module _ (user now : ℕ) where
  closed_row :
      (s : UserSession)
      → (close user now s).user_id ≡ user
      → is_some (close user now s).revoked_at ≡ true
  closed_row s h = elim (Bool-cases (s.user_id == user)) [
    | inl e ↦ ground arith
    | inr e ↦ absurd (let n = ≡→eq s.user_id user in ground (arith, n))
  ]

  revoke_all-IsClosed : (t : Sessions) → IsClosed user (revoke_all_for_user user now t)
  unfolding revoke_all_for_user
  revoke_all-IsClosed [] = tt
  revoke_all-IsClosed (s ∷ t) = (closed_row s, revoke_all-IsClosed t)

kept_closed :
    (user u now : ℕ) (s : UserSession)
    → (s.user_id ≡ user → is_some s.revoked_at ≡ true)
    → (close u now s).user_id ≡ user
    → is_some (close u now s).revoked_at ≡ true
kept_closed user u now s k h = elim (Bool-cases (s.user_id == u)) [
  | inl e ↦ elim (Bool-cases (is_some s.revoked_at)) [ inl r ↦ ground arith | inr r ↦ ground arith ]
  | inr e ↦ ground arith
]

others-IsClosed :
    (user u now : ℕ) (t : Sessions) → IsClosed user t → IsClosed user (revoke_all_for_user u now t)
unfolding revoke_all_for_user
others-IsClosed user u now [] c = tt
others-IsClosed user u now (s ∷ t) c =
    (kept_closed user u now s c.0, others-IsClosed user u now t c.1)

revoke_row-IsClosed :
    (user i now : ℕ) (t : Sessions)
    → IsClosed user t
    → IsClosed user (update session_id i (revoked now) t)
revoke_row-IsClosed user i now t c =
    All-update session_id (λ s. s.user_id ≡ user → is_some s.revoked_at ≡ true) i (revoked now) t
      (λ s k h. refl) c

module _ (sha256_hex : String → String) (days : ℕ) where
  issue-IsClosed :
      (user u now : ℕ) (draw : Draw) (t : Sessions)
      → u ≢ user
      → IsClosed user t
      → IsClosed user (after_issue t (issue_refresh_token sha256_hex days u now draw t))
  unfolding issue_refresh_token
  issue-IsClosed user u now draw t n c = ground arith

  -- A closed user's tokens are refused.
  closed_refused :
      (user : ℕ) (raw : String) (now later : ℕ) (draw : Draw) (t : Sessions) {u : ℕ}
      {token : String} {t' : Sessions}
      → IsClosed user t
      → validate_and_rotate sha256_hex days raw now later draw t ≡ some (some (u, token), t')
      → u ≢ user
  closed_refused user raw now later draw t c h =
      let (s, f, b, e, _) = validate_and_rotate_inv sha256_hex days raw now later draw t h in
      let closed =
        All-find session_hash (λ s. s.user_id ≡ user → is_some s.revoked_at ≡ true) (sha256_hex raw)
          t c f in
      λ q. absurd (let p = closed (e ∙ q) in ground (arith, p))

  rotation-IsClosed :
      (user : ℕ) (raw : String) (now later : ℕ) (draw : Draw) (t : Sessions)
      → IsClosed user t
      → IsClosed user (after_rotation t (validate_and_rotate sha256_hex days raw now later draw t))
  unfolding validate_and_rotate
  rotation-IsClosed user raw now later draw t c =
      elim (Option-cases (find session_hash (sha256_hex raw) t)) [
        | inl e ↦ rw (e, validate_and_rotate) c
        | inr (s, e) ↦ elim (Bool-cases (is_usable now s)) [
          | inr b ↦ rw (e, b, validate_and_rotate) c
          | inl b ↦
              rw (e, b, validate_and_rotate)
                (issued s (usable s e b)
                  (issue_refresh_token sha256_hex days s.user_id later draw
                    (update session_id s.id (revoked now) t))
                  refl)
        ]
      ]
    where
      usable :
          (s : UserSession)
          → find session_hash (sha256_hex raw) t ≡ some s
          → is_usable now s ≡ true
          → s.user_id ≢ user
      usable s e b q =
          let closed =
            All-find session_hash (λ r. r.user_id ≡ user → is_some r.revoked_at ≡ true)
              (sha256_hex raw) t c e q in
          absurd (ground (arith, closed))

      issued :
          (s : UserSession)
          → s.user_id ≢ user
          → (o : Option (String × Sessions))
          → issue_refresh_token sha256_hex days s.user_id later draw
              (update session_id s.id (revoked now) t)
            ≡ o
          → IsClosed user (after_rotation t (rotated s.user_id o))
      issued s n none e = c
      issued s n (some (token, t')) e =
          subst (λ w. IsClosed user (after_issue (update session_id s.id (revoked now) t) w)) e
            (issue-IsClosed user s.user_id later draw (update session_id s.id (revoked now) t) n
              (revoke_row-IsClosed user s.id now t c))

  logout-IsClosed :
      (user : ℕ) (raw : String) (now : ℕ) (t : Sessions)
      → IsClosed user t
      → IsClosed user (revoke_token sha256_hex raw now t)
  unfolding revoke_token
  logout-IsClosed user raw now t c = elim (Option-cases (find session_hash (sha256_hex raw) t)) [
    | inl e ↦ rw (e, revoke_token) c
    | inr (s, e) ↦ elim (Bool-cases (is_some s.revoked_at)) [
      | inl b ↦ rw (e, b, revoke_token) c
      | inr b ↦ rw (e, b, revoke_token) (revoke_row-IsClosed user s.id now t c)
    ]
  ]

  perform-IsClosed :
      (user : ℕ) (k : Call) (t : Sessions)
      → NotLogin user k
      → IsClosed user t
      → IsClosed user (perform sha256_hex days k t)
  perform-IsClosed user (login u now draw) t n c = issue-IsClosed user u now draw t n c
  perform-IsClosed user (refresh raw now later draw) t n c =
      rotation-IsClosed user raw now later draw t c
  perform-IsClosed user (logout raw now) t n c = logout-IsClosed user raw now t c
  perform-IsClosed user (revoke_all u now) t n c = others-IsClosed user u now t c

  perform_all-IsClosed :
      (user : ℕ) (ks : List Call) (t : Sessions)
      → All (NotLogin user) ks
      → IsClosed user t
      → IsClosed user (perform_all sha256_hex days ks t)
  perform_all-IsClosed user [] t n c = c
  perform_all-IsClosed user (k ∷ ks) t n c =
      perform_all-IsClosed user ks (perform sha256_hex days k t) n.1
        (perform-IsClosed user k t n.0 c)

  -- After revoke_all_for_user, and any calls on sessions that follow but a login of the user, no
  -- rotation answers with the user, whatever token it is given.
  pub locked_out :
      (user at : ℕ) (t : Sessions) (ks : List Call) (raw : String) (now later : ℕ) (draw : Draw)
      {u : ℕ} {token : String} {t' : Sessions}
      → All (NotLogin user) ks
      → validate_and_rotate sha256_hex days raw now later draw
          (perform_all sha256_hex days ks (revoke_all_for_user user at t))
        ≡ some (some (u, token), t')
      → u ≢ user
  locked_out user at t ks raw now later draw n h =
      let closed =
        perform_all-IsClosed user ks (revoke_all_for_user user at t) n
          (revoke_all-IsClosed user at t) in
      closed_refused user raw now later draw
        (perform_all sha256_hex days ks (revoke_all_for_user user at t)) closed h
