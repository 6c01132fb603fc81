-- ===== src/Sessions/Calls.antt =====
-- The calls of api/services/session_service.py keep the columns unique and revoked tokens revoked.
use templehe_consign.Sessions.{
  revoke_all_for_user, rotated, after_rotation, after_issue, revoke_token, is_usable, revoked,
  validate_and_rotate, UserSession, Sessions, session_id, session_hash, Draw, issue_refresh_token,
}
use templehe_consign.Table.{find, update, find-map-some, map-IsUnique}
use templehe_consign.Base.{
  ℕ, String, ◌≡◌, refl, subst, inl, inr, Option, none, some, nat_eq, string_eq, pair_eq, Bool-cases,
  Option-cases, is_some, ids_eq, int_eq,
}
use templehe_consign.Sessions.Rows.{
  IsTable, IsSpent, revoke_row-IsTable, revoke_row-IsSpent, issue-IsTable, issue-IsSpent, close,
  close-hash, close-id, close_spent,
}

module _ (sha256_hex : String → String) (days : ℕ) where
  pub rotation-IsTable :
      (raw : String) (now later : ℕ) (draw : Draw) (t : Sessions)
      → IsTable t
      → IsTable (after_rotation t (validate_and_rotate sha256_hex days raw now later draw t))
  unfolding validate_and_rotate
  rotation-IsTable raw now later draw t v =
      elim (Option-cases (find session_hash (sha256_hex raw) t)) [
        | inl e ↦ rw (e, validate_and_rotate) v
        | inr (s, e) ↦ elim (Bool-cases (is_usable now s)) [
          | inr b ↦ rw (e, b, validate_and_rotate) v
          | inl b ↦
              rw (e, b, validate_and_rotate)
                (issued s
                  (issue_refresh_token sha256_hex days s.user_id later draw
                    (update session_id s.id (revoked now) t))
                  refl)
        ]
      ]
    where
      issued :
          (s : UserSession) (o : Option (String × Sessions))
          → issue_refresh_token sha256_hex days s.user_id later draw
              (update session_id s.id (revoked now) t)
            ≡ o
          → IsTable (after_rotation t (rotated s.user_id o))
      issued s none e = v
      issued s (some (token, t')) e =
          subst (λ w. IsTable (after_issue (update session_id s.id (revoked now) t) w)) e
            (issue-IsTable sha256_hex days s.user_id later draw
              (update session_id s.id (revoked now) t) (revoke_row-IsTable s.id now t v))

  pub rotation-IsSpent :
      (h raw : String) (now later : ℕ) (draw : Draw) (t : Sessions)
      → IsTable t
      → IsSpent h t
      → IsSpent h (after_rotation t (validate_and_rotate sha256_hex days raw now later draw t))
  unfolding validate_and_rotate
  rotation-IsSpent h raw now later draw t v p =
      elim (Option-cases (find session_hash (sha256_hex raw) t)) [
        | inl e ↦ rw (e, validate_and_rotate) p
        | inr (s, e) ↦ elim (Bool-cases (is_usable now s)) [
          | inr b ↦ rw (e, b, validate_and_rotate) p
          | inl b ↦
              rw (e, b, validate_and_rotate)
                (issued s e
                  (issue_refresh_token sha256_hex days s.user_id later draw
                    (update session_id s.id (revoked now) t))
                  refl)
        ]
      ]
    where
      issued :
          (s : UserSession)
          → find session_hash (sha256_hex raw) t ≡ some s
          → (o : Option (String × Sessions))
          → issue_refresh_token sha256_hex days s.user_id later draw
              (update session_id s.id (revoked now) t)
            ≡ o
          → IsSpent h (after_rotation t (rotated s.user_id o))
      issued s f none e = p
      issued s f (some (token, t')) e =
          subst (λ w. IsSpent h (after_issue (update session_id s.id (revoked now) t) w)) e
            (issue-IsSpent sha256_hex days h s.user_id later draw
              (update session_id s.id (revoked now) t)
              (revoke_row-IsSpent h (sha256_hex raw) now t v f p))

  pub logout-IsTable :
      (raw : String) (now : ℕ) (t : Sessions)
      → IsTable t
      → IsTable (revoke_token sha256_hex raw now t)
  unfolding revoke_token
  logout-IsTable raw now t v = elim (Option-cases (find session_hash (sha256_hex raw) t)) [
    | inl e ↦ rw (e, revoke_token) v
    | inr (s, e) ↦ elim (Bool-cases (is_some s.revoked_at)) [
      | inl b ↦ rw (e, b, revoke_token) v
      | inr b ↦ rw (e, b, revoke_token) (revoke_row-IsTable s.id now t v)
    ]
  ]

  pub logout-IsSpent :
      (h raw : String) (now : ℕ) (t : Sessions)
      → IsTable t
      → IsSpent h t
      → IsSpent h (revoke_token sha256_hex raw now t)
  unfolding revoke_token
  logout-IsSpent h raw now t v p = elim (Option-cases (find session_hash (sha256_hex raw) t)) [
    | inl e ↦ rw (e, revoke_token) p
    | inr (s, e) ↦ elim (Bool-cases (is_some s.revoked_at)) [
      | inl b ↦ rw (e, b, revoke_token) p
      | inr b ↦ rw (e, b, revoke_token) (revoke_row-IsSpent h (sha256_hex raw) now t v e p)
    ]
  ]

  pub close_all-IsTable :
      (user now : ℕ) (t : Sessions) → IsTable t → IsTable (revoke_all_for_user user now t)
  unfolding revoke_all_for_user
  close_all-IsTable user now t v = (
    map-IsUnique session_hash (close user now) (close-hash user now) t v.0,
    map-IsUnique session_id (close user now) (close-id user now) t v.1,
  )

  pub close_all-IsSpent :
      (h : String) (user now : ℕ) (t : Sessions)
      → IsSpent h t
      → IsSpent h (revoke_all_for_user user now t)
  unfolding revoke_all_for_user
  close_all-IsSpent h user now t (s, g, p) = (
    close user now s,
    find-map-some session_hash (close user now) (close-hash user now) h t g,
    close_spent user now s p,
  )
