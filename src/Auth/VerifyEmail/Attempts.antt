-- ===== src/Auth/VerifyEmail/Attempts.antt =====
-- What a wrong code costs: the answer `InvalidOtpError` comes from a wrong code, and one attempt of the
-- log-in request is gone.
use base_backend.Prelude.{
  ℕ, suc, ◌-◌, ◌<◌, ◌≡◌, ◌∙◌, inl, inr, ap, sym, subst, refl, String, false, some, arith,
  Bool-cases, leb, string_eq, nat_eq, if◌then◌else◌,
}
use base_backend.Errors.{
  Error, Result, ok, err, invalid_login_request, too_many_attempts, invalid_otp,
}
use base_backend.Exec.{raise, or_raise, handle}
use base_backend.Exec.Inversion.{bind-err}
use base_backend.Exec.NeverRaises.{Raises}
use base_backend.World.{Backend, commit, rollback}
use base_backend.World.Failures.{commit-NeverRaises}
use base_backend.Users.{User}
use base_backend.Users.Repository.{get_by_id}
use base_backend.Auth.{TokenPairDto}
use base_backend.Auth.LoginRequests.{
  LoginRequest, live_request, LoginRedis, get_login_request, with_attempts, update_login_attempts,
}
use base_backend.Auth.LoginRequests.Patches.{
  Patched, get_login_request-Returns, patch_request-Returns,
}
use base_backend.Auth.VerifyEmail.{
  Verification, LoginState, on_world, on_logins, user_of_email, otp_ok, refuse_code, check_request,
  on_code, verify_email_steps, verify_email,
}
use base_backend.Auth.VerifyEmail.Steps.{
  on_world-Returns, on_logins-Returns, user_of_email-Returns, check_request-Returns,
  or_raise-Returns,
}
use base_backend.Auth.VerifyEmail.Failures.{
  on_world-NeverRaises, on_logins-NeverRaises, get_login_request-NeverRaises,
  patch_request-NeverRaises, get_by_id-NeverRaises, accept_code-NeverRaises,
  user_of_email-NeverRaises, check_request-NeverRaises, or_raise-NeverRaises,
}

module _ (n : ℕ) (b : Backend) (redis : LoginRedis) (v : Verification) where
  attempts_left :
      (a : ℕ) (s : LoginState) {s' : LoginState}
      → Raises {A = TokenPairDto}
          (raise (if leb (a - 1) 0 then too_many_attempts else invalid_otp (a - 1)))
          s
          (invalid_otp n)
          s'
      → (0 < n) × (a ≡ suc n) × (s' ≡ s)
  attempts_left a s h = elim (Bool-cases (leb (a - 1) 0)) [
    | inl none_left ↦ absurd (cc (rw none_left at h))
    | inr some_left ↦ ground arith
  ]

  refuse_code-counts :
      (id : String) (r : LoginRequest) (s : LoginState) {s' : LoginState}
      → Raises (refuse_code b redis v id r) s (invalid_otp n) s'
      → (0 < n)
        × (r.attempts_left ≡ suc n)
        × Patched v.patch_now id (λ x. record x { attempts_left = n }) s.logins s'.logins
  unfolding refuse_code update_login_attempts
  refuse_code-counts id r s {s'} h =
      let update = update_login_attempts redis v.patch_now id (r.attempts_left - 1) in
      elim (bind-err (on_logins update) _ s h) [
        | inl f ↦ absurd (
            (on_logins-NeverRaises (invalid_otp n) refl update
                (patch_request-NeverRaises (invalid_otp n) refl redis v.patch_now id _)).at
              s s' f)
        | inr (_, s1, e1, r1) ↦ elim (bind-err (on_world (commit b)) _ s1 r1) [
          | inl f ↦ absurd (
              (on_world-NeverRaises (invalid_otp n) refl (commit b)
                  (commit-NeverRaises b (invalid_otp n) refl)).at
                s1 s' f)
          | inr (_, s2, e2, r2) ↦
              let (q, f1, g1) = on_logins-Returns update s e1 in
              let (w, f2, g2) = on_world-Returns (commit b) s1 e2 in
              let patched =
                patch_request-Returns redis v.patch_now id (with_attempts (r.attempts_left - 1))
                  s.logins f1 in
              let (pos, suc_eq, last) = attempts_left r.attempts_left s2 r2 in
              let one_less : r.attempts_left - 1 ≡ n = omega arith in
              let logins : s'.logins ≡ q =
                ap (λ (x : LoginState). x.logins) last
                ∙ ap (λ (x : LoginState). x.logins) g2
                ∙ ap (λ (x : LoginState). x.logins) g1 in
              (
                pos,
                suc_eq,
                subst (λ k. Patched v.patch_now id (with_attempts k) s.logins s'.logins) one_less
                    (subst
                      (λ y. Patched v.patch_now id (with_attempts (r.attempts_left - 1)) s.logins y)
                      (sym logins) patched),
              )
        ]
      ]

  on_code-counts :
      (code id : String) (u : User) (r : LoginRequest) (s : LoginState) {s' : LoginState}
      → Raises (on_code b redis v code id u r) s (invalid_otp n) s'
      → (otp_ok b redis v code r ≡ false)
        × (0 < n)
        × (r.attempts_left ≡ suc n)
        × Patched v.patch_now id (λ x. record x { attempts_left = n }) s.logins s'.logins
  unfolding on_code
  on_code-counts code id u r s {s'} h = elim (Bool-cases (otp_ok b redis v code r)) [
    | inl right ↦
        absurd
          ((accept_code-NeverRaises (invalid_otp n) refl b redis v id u r).at s s' (rw right at h))
    | inr wrong ↦
        let (pos, suc_eq, patched) = refuse_code-counts id r s (rw wrong at h) in
        (wrong, pos, suc_eq, patched)
  ]

  -- The body, with the request that was found and the state in which its code was looked at.
  steps-counts :
      (email code id : String) (s : LoginState) {s' : LoginState}
      → Raises (verify_email_steps b redis v email code id) s (invalid_otp n) s'
      → (r : LoginRequest) × (live_request v.read_now (s.logins id) ≡ some r)
        × (otp_ok b redis v code r ≡ false)
        × (0 < n)
        × (r.attempts_left ≡ suc n)
        × Patched v.patch_now id (λ x. record x { attempts_left = n }) s.logins s'.logins
  unfolding verify_email_steps
  steps-counts email code id s {s'} h =
      elim (bind-err (on_logins (get_login_request redis v.read_now id)) _ s h) [
        | inl f ↦ absurd (
            (on_logins-NeverRaises (invalid_otp n) refl _
                (get_login_request-NeverRaises (invalid_otp n) refl redis v.read_now id)).at
              s s' f)
        | inr (found, s1, e1, r1) ↦ elim (bind-err (or_raise found invalid_login_request) _ s1 r1) [
          | inl f ↦ absurd ((or_raise-NeverRaises n b redis v found).at s1 s' f)
          | inr (r, s2, e2, r2) ↦ elim (bind-err (on_world (get_by_id b r.user_id)) _ s2 r2) [
            | inl f ↦ absurd (
                (on_world-NeverRaises (invalid_otp n) refl _
                    (get_by_id-NeverRaises (invalid_otp n) refl b redis v r.user_id)).at
                  s2 s' f)
            | inr (row, s3, e3, r3) ↦
                elim (bind-err (user_of_email email r.attempts_left row) _ s3 r3) [
                  | inl f ↦
                      absurd (
                        (user_of_email-NeverRaises n b redis v email r.attempts_left row).at s3 s'
                          f)
                  | inr (u, s4, e4, r4) ↦ elim (bind-err (check_request b redis v r) _ s4 r4) [
                    | inl f ↦ absurd ((check_request-NeverRaises n b redis v r).at s4 s' f)
                    | inr (_, s5, e5, r5) ↦
                        let (q, f1, g1) =
                          on_logins-Returns (get_login_request redis v.read_now id) s e1 in
                        let (p1, p2) = get_login_request-Returns redis v.read_now id s.logins f1 in
                        let (there, g2) = or_raise-Returns found invalid_login_request s1 e2 in
                        let (w, f3, g3) = on_world-Returns (get_by_id b r.user_id) s2 e3 in
                        let (_, _, g4) = user_of_email-Returns email r.attempts_left row s3 e4 in
                        let (_, _, _, g5) = check_request-Returns b redis v r s4 e5 in
                        let logins : s5.logins ≡ s.logins =
                          ap (λ (x : LoginState). x.logins) (g5 ∙ g4 ∙ g3)
                          ∙ ap (λ (x : LoginState). x.logins) (g2 ∙ g1)
                          ∙ p1 in
                        let (wrong, pos, suc_eq, patched) = on_code-counts code id u r s5 r5 in
                        (
                          r,
                          sym p2 ∙ there,
                          wrong,
                          pos,
                          suc_eq,
                          subst (λ y. Patched v.patch_now id (with_attempts n) y s'.logins) logins
                              patched,
                        )
                  ]
                ]
          ]
        ]
      ]

  raised :
      (r : Result TokenPairDto × LoginState) {s' : LoginState}
      → handle (λ _. on_world rollback) r ≡ (err (invalid_otp n), s')
      → (x : LoginState) × (r ≡ (err (invalid_otp n), x)) × (s'.logins ≡ x.logins)
  unfolding rollback
  raised (ok a, x) h = absurd (cc)
  raised (err e, x) h = (
    x,
    λ i. (err (error_of (h i).0), x),
    sym (ap (λ (y : Result TokenPairDto × LoginState). (y.1).logins) h),
  )
    where
      error_of : Result TokenPairDto → Error
      error_of (ok _) = e
      error_of (err y) = y

  -- The answer `InvalidOtpError` with `n` attempts left comes from a wrong code for a log-in request that
  -- had one attempt more, and `n` is not 0. The request is patched to `n` attempts, where it has not run
  -- out in between, and the rollback does not take that back.
  pub verify_email-counts :
      (email code id : String) (s : LoginState) {s' : LoginState}
      → Raises (verify_email b redis v email code id) s (invalid_otp n) s'
      → (r : LoginRequest) × (live_request v.read_now (s.logins id) ≡ some r)
        × (otp_ok b redis v code r ≡ false)
        × (0 < n)
        × (r.attempts_left ≡ suc n)
        × Patched v.patch_now id (λ x. record x { attempts_left = n }) s.logins s'.logins
  unfolding verify_email
  verify_email-counts email code id s h =
      let (x, e, same) = raised (verify_email_steps b redis v email code id s) h in
      let (r, live, wrong, pos, suc_eq, patched) = steps-counts email code id s e in
      (
        r,
        live,
        wrong,
        pos,
        suc_eq,
        subst (λ y. Patched v.patch_now id (with_attempts n) s.logins y) (sym same) patched,
      )
