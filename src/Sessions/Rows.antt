-- ===== src/Sessions/Rows.antt =====
-- What each call of api/services/session_service.py does to the unique columns and to the tokens that
-- have been revoked.
use templehe_consign.Sessions.{
  after_issue, revoke_open, is_usable, revoked, validate_and_rotate, UserSession, Sessions,
  session_id, session_hash, Draw, new_session, issue_refresh_token,
}
use templehe_consign.Table.{
  find, update, IsKeyed, update-IsUnique, update_by-IsUnique, find-update_by_id,
  find-update_by_id_ne, find-cons_ne,
}
use templehe_consign.Base.{
  ℕ, String, ◌≡◌, refl, sym, ap, ◌∙◌, inl, inr, true, none, some, ◌∷◌, arith, if◌then◌else◌, ◌==◌,
  nat_eq, string_eq, pair_eq, Bool-cases, Option-cases, is_some, eq-cases, ids_eq, int_eq,
}

apart :
    {h k : String} (t : Sessions) {s : UserSession}
    → h ≡ k
    → find session_hash k t ≡ none
    → find session_hash h t ≡ some s
    → ⊥
apart t q f g = absurd (cc (ap (λ j. find session_hash j t) q, f, g))

-- Both unique columns.
abbrev pub IsTable : Sessions → Type 0
IsTable t = IsKeyed session_hash session_id t

-- The token of a hash has been revoked.
abbrev pub IsSpent : String → Sessions → Type 0
IsSpent h t = (s : UserSession) × (find session_hash h t ≡ some s) × (is_some s.revoked_at ≡ true)

pub revoke_row-IsTable :
    (i now : ℕ) (t : Sessions) → IsTable t → IsTable (update session_id i (revoked now) t)
revoke_row-IsTable i now t v = (
  update_by-IsUnique session_hash session_id i (revoked now) t (λ s. refl) v.0,
  update-IsUnique session_id i (revoked now) t (λ s. refl) v.1,
)

pub revoke_row-IsSpent :
    (h k : String) (now : ℕ) (t : Sessions) {r : UserSession}
    → IsTable t
    → find session_hash k t ≡ some r
    → IsSpent h t
    → IsSpent h (update session_id r.id (revoked now) t)
revoke_row-IsSpent h k now t {r} v f (s, g, p) = elim (eq-cases h k) [
  | inl e ↦ (
    revoked now r,
    ap (λ j. find session_hash j (update session_id r.id (revoked now) t)) e
        ∙ find-update_by_id session_hash session_id k (revoked now) t (λ y. refl) v.1 f,
    refl,
  )
  | inr n ↦ (
    s,
    find-update_by_id_ne session_hash session_id h k (revoked now) t (λ y. refl) v.1 n f ∙ g,
    p,
  )
]

abbrev pub close : ℕ → ℕ → UserSession → UserSession
close user now s = if s.user_id == user then revoke_open now s else s

pub close-hash : (user now : ℕ) (s : UserSession) → (close user now s).token_hash ≡ s.token_hash
close-hash user now s = ground arith

pub close-id : (user now : ℕ) (s : UserSession) → (close user now s).id ≡ s.id
close-id user now s = ground arith

pub close_spent :
    (user now : ℕ) (s : UserSession)
    → is_some s.revoked_at ≡ true
    → is_some (close user now s).revoked_at ≡ true
close_spent user now s p = ground arith

module _ (sha256_hex : String → String) (days : ℕ) where
  pub issue_refresh_token_inv :
      (user now : ℕ) (draw : Draw) (t : Sessions) {token : String} {t' : Sessions}
      → issue_refresh_token sha256_hex days user now draw t ≡ some (token, t')
      → (t' ≡ new_session sha256_hex days user now draw ∷ t)
        × (token ≡ draw.raw_token)
        × (find session_hash (sha256_hex draw.raw_token) t ≡ none)
        × (find session_id draw.id t ≡ none)
  unfolding issue_refresh_token
  issue_refresh_token_inv user now draw t h = ground arith

  -- A rotation that answers with a token.
  pub validate_and_rotate_inv :
      (raw : String) (now later : ℕ) (draw : Draw) (t : Sessions) {user : ℕ} {token : String}
      {t' : Sessions}
      → validate_and_rotate sha256_hex days raw now later draw t ≡ some (some (user, token), t')
      → (s : UserSession) × (find session_hash (sha256_hex raw) t ≡ some s)
        × (is_usable now s ≡ true)
        × (s.user_id ≡ user)
        × (issue_refresh_token sha256_hex days user later draw
              (update session_id s.id (revoked now) t)
            ≡ some (token, t'))
  unfolding validate_and_rotate
  validate_and_rotate_inv raw now later draw t {user} {token} {t'} h =
      elim (Option-cases (find session_hash (sha256_hex raw) t)) [
        | inl e ↦ absurd (ground arith)
        | inr (s, e) ↦ elim (Bool-cases (is_usable now s)) [
          | inr b ↦ absurd (ground arith)
          | inl b ↦
              elim (Option-cases (
                issue_refresh_token sha256_hex days s.user_id later draw
                  (update session_id s.id (revoked now) t))) [
                    | inl n ↦ absurd (ground arith)
                    | inr ((k, t2), n) ↦
                        (let u : s.user_id ≡ user = ground arith in
                          (
                            s,
                            e,
                            b,
                            u,
                            ap
                                  (λ w.
                                    issue_refresh_token sha256_hex days w later draw
                                      (update session_id s.id (revoked now) t))
                                  (sym u)
                                ∙ n
                                ∙ ground arith,
                          ))
                  ]
        ]
      ]

  pub issue-IsTable :
      (user now : ℕ) (draw : Draw) (t : Sessions)
      → IsTable t
      → IsTable (after_issue t (issue_refresh_token sha256_hex days user now draw t))
  unfolding issue_refresh_token
  issue-IsTable user now draw t v = ground arith

  pub issue-IsSpent :
      (h : String) (user now : ℕ) (draw : Draw) (t : Sessions)
      → IsSpent h t
      → IsSpent h (after_issue t (issue_refresh_token sha256_hex days user now draw t))
  issue-IsSpent h user now draw t (s, g, p) =
      elim (Option-cases (issue_refresh_token sha256_hex days user now draw t)) [
        | inl e ↦ rw e (s, g, p)
        | inr ((token, t'), e) ↦
            (let (shape, _, free, _) = issue_refresh_token_inv user now draw t e in
              rw (e, shape)
                (
                  s,
                  find-cons_ne session_hash h (new_session sha256_hex days user now draw) t
                        (λ q. apart t q free g)
                      ∙ g,
                  p,
                ))
      ]
