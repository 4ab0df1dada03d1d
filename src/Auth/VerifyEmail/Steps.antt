-- ===== src/Auth/VerifyEmail/Steps.antt =====
-- What the parts of `VerifyEmailUseCase.execute` have tested and done when they return.
use base_backend.Prelude.{
  ℕ, ◌-◌, ◌≤◌, ◌<◌, ◌≡◌, ◌∙◌, inl, inr, ap, sym, subst, String, true, Option, none, some, is_some,
  arith, Bool-cases, ltb, leb, ◌==◌, string_eq, nat_eq,
}
use base_backend.Errors.{Error, login_request_already_used, otp_expired, too_many_attempts}
use base_backend.Exec.{Exec, raise_if, or_raise}
use base_backend.Exec.Inversion.{Returns, bind-ok, pure-Returns, on-Returns, raise_if-Returns}
use base_backend.World.{World, Backend, commit}
use base_backend.Users.{User}
use base_backend.Auth.{TokenPairDto}
use base_backend.Auth.LoginRequests.{
  LoginRequest, Requests, LoginRedis, consumed, mark_login_consumed, update_login_attempts,
}
use base_backend.Auth.VerifyEmail.{
  Verification, LoginState, on_world, on_logins, user_of_email, otp_ok, refuse_code, open_session,
  accept_code, check_request, on_code,
}
use base_backend.Auth.LoginRequests.Patches.{Patched, patch_request-Returns}

pub on_world-Returns :
    {A : Type 0} (m : Exec World A) (s : LoginState) {a : A} {s' : LoginState}
    → Returns (on_world m) s a s'
    → (w : World) × Returns m s.world a w × (s' ≡ record s { world = w })
on_world-Returns m s h =
    on-Returns (λ (x : LoginState). x.world) (λ w (x : LoginState). record x { world = w }) m s h

pub on_logins-Returns :
    {A : Type 0} (m : Exec Requests A) (s : LoginState) {a : A} {s' : LoginState}
    → Returns (on_logins m) s a s'
    → (r : Requests) × Returns m s.logins a r × (s' ≡ record s { logins = r })
on_logins-Returns m s h =
    on-Returns (λ (x : LoginState). x.logins) (λ r (x : LoginState). record x { logins = r }) m s h

pub user_of_email-Returns :
    (email : String) (n : ℕ) (found : Option User) (s : LoginState) {u : User} {s' : LoginState}
    → Returns (user_of_email email n found) s u s'
    → (found ≡ some u) × (u.email ≡ email) × (s' ≡ s)
user_of_email-Returns email n none s h = absurd (cc)
user_of_email-Returns email n (some u) s h = elim (Bool-cases (u.email == email)) [
  | inl same ↦
      let (e, f) = pure-Returns u s (rw same at h) in
      let g = (string_eq.equal_iff u.email email).0 same in
      (ap some e, ap (λ (x : User). x.email) (sym e) ∙ g, f)
  | inr other ↦ absurd (cc (rw other at h))
]

pub or_raise-Returns :
    {A : Type 0} (o : Option A) (e : Error) (s : LoginState) {x : A} {s' : LoginState}
    → Returns (or_raise o e) s x s'
    → (o ≡ some x) × (s' ≡ s)
or_raise-Returns none e s h = absurd (cc)
or_raise-Returns (some a) e s h = (cc, cc)

module _ (b : Backend) (redis : LoginRedis) (v : Verification) where
  refuse_code-raises :
      (id : String) (request : LoginRequest) (s : LoginState) {t : TokenPairDto} {s' : LoginState}
      → ¬ Returns (refuse_code b redis v id request) s t s'
  unfolding refuse_code
  refuse_code-raises id request s h =
      let (_, s1, _, r1) =
        bind-ok (on_logins (update_login_attempts redis v.patch_now id (request.attempts_left - 1)))
          _ s h in
      let (_, s2, _, r2) = bind-ok (on_world (commit b)) _ s1 r1 in cc

  pub check_request-Returns :
      (request : LoginRequest) (s : LoginState) {s' : LoginState}
      → Returns (check_request b redis v request) s tt s'
      → (request.consumed_at ≡ none)
        × (v.now ≤ request.expires_at)
        × (0 < request.attempts_left)
        × (s' ≡ s)
  unfolding check_request
  check_request-Returns request s h =
      let a =
        raise_if (is_some request.consumed_at)
          (login_request_already_used (some request.attempts_left)) in
      let (_, s1, e1, r1) = bind-ok a _ s h in
      let (_, s2, e2, r2) = bind-ok (raise_if (ltb request.expires_at v.now) otp_expired) _ s1 r1 in
      let (f1, g1) =
        raise_if-Returns (is_some request.consumed_at)
          (login_request_already_used (some request.attempts_left)) s e1 in
      let (f2, g2) = raise_if-Returns (ltb request.expires_at v.now) otp_expired s1 e2 in
      let (f3, g3) = raise_if-Returns (leb request.attempts_left 0) too_many_attempts s2 r2 in
      (ground (arith, f1), ground (arith, f2), ground (arith, f3), g3 ∙ g2 ∙ g1)

  pub accept_code-Returns :
      (id : String) (u : User) (request : LoginRequest) (s : LoginState) {t : TokenPairDto}
      {s' : LoginState}
      → Returns (accept_code b redis v id u request) s t s'
      → Patched v.patch_now id (consumed v.now) s.logins s'.logins
        × Returns (open_session b redis v u request) s.world t s'.world
  unfolding accept_code mark_login_consumed
  accept_code-Returns id u request s {t} {s'} h =
      let (_, s1, e1, r1) =
        bind-ok (on_logins (mark_login_consumed redis v.patch_now id v.now)) _ s h in
      let (q, f1, g1) = on_logins-Returns (mark_login_consumed redis v.patch_now id v.now) s e1 in
      let (w, f2, g2) = on_world-Returns (open_session b redis v u request) s1 r1 in
      let patched = patch_request-Returns redis v.patch_now id (consumed v.now) s.logins f1 in
      (
        subst (λ y. Patched v.patch_now id (consumed v.now) s.logins y)
            (sym (ap (λ (x : LoginState). x.logins) g2 ∙ ap (λ (x : LoginState). x.logins) g1))
            patched,
        subst (λ y. Returns (open_session b redis v u request) s.world t y)
            (sym (ap (λ (x : LoginState). x.world) g2))
            (subst (λ (x : LoginState). Returns (open_session b redis v u request) x.world t w) g1
              f2),
      )

  pub on_code-Returns :
      (code id : String) (u : User) (request : LoginRequest) (s : LoginState) {t : TokenPairDto}
      {s' : LoginState}
      → Returns (on_code b redis v code id u request) s t s'
      → (otp_ok b redis v code request ≡ true) × Returns (accept_code b redis v id u request) s t s'
  unfolding on_code
  on_code-Returns code id u request s h = elim (Bool-cases (otp_ok b redis v code request)) [
    | inl right ↦ (right, rw right at h)
    | inr wrong ↦ absurd (refuse_code-raises id request s (rw wrong at h))
  ]
