-- ===== src/Auth/VerifyEmail/Accepted.antt =====
-- Which codes are accepted, and that a log-in request is accepted once.
use base_backend.Prelude.{
  ◌≤◌, ◌<◌, ◌≡◌, ◌∙◌, ap, sym, subst, refl, String, true, Option, none, some, string_eq, nat_eq,
  map_option,
}
use base_backend.Errors.{Result, ok, err, invalid_login_request}
use base_backend.Exec.{handle, or_raise}
use base_backend.Exec.Inversion.{Returns, bind-ok}
use base_backend.Redis.{Time, Uuid}
use base_backend.World.{UserModel, Backend, rollback}
use base_backend.Users.{User}
use base_backend.Users.Repository.{to_entity, completed_at, get_by_id}
use base_backend.Users.Repository.Effects.{user_at, get_by_id-Returns}
use base_backend.Auth.{TokenPairDto}
use base_backend.Auth.LoginRequests.{LoginRequest, live_request, LoginRedis, get_login_request}
use base_backend.Auth.VerifyEmail.{
  Verification, LoginState, on_world, on_logins, user_of_email, otp_ok, open_session, check_request,
  on_code, verify_email_steps, verify_email,
}
use base_backend.Auth.LoginRequests.Patches.{Patched, get_login_request-Returns, consumed-stays}
use base_backend.Auth.VerifyEmail.Opened.{IsOpened, open_session-Returns}
use base_backend.Auth.VerifyEmail.Steps.{
  on_world-Returns, on_logins-Returns, user_of_email-Returns, check_request-Returns,
  accept_code-Returns, on_code-Returns, or_raise-Returns,
}

-- A code was accepted for a log-in request: what was tested, and what has become of the request.
pub record IsVerified (b : Backend) (redis : LoginRedis) (v : Verification) (email code id : String)
    (s s' : LoginState) (t : TokenPairDto) : Type 0 where
  pub request : LoginRequest
  pub user : UserModel
  pub live : live_request v.read_now (s.logins id) ≡ some request
  pub not_consumed : request.consumed_at ≡ none
  pub not_expired : v.now ≤ request.expires_at
  pub attempts : 0 < request.attempts_left
  pub user_row : s.world.db.users request.user_id ≡ some user
  pub same_email : user.email ≡ email
  pub right_code : otp_ok b redis v code request ≡ true
  pub marked :
      Patched v.patch_now id (λ x. record x { consumed_at = some v.now }) s.logins s'.logins
  pub opened : IsOpened b v request.user_id request.user_device_id user s.world t s'.world

module _ (b : Backend) (redis : LoginRedis) (v : Verification) where
  -- Tokens are issued only for a log-in request that is there, not consumed, not expired and has attempts
  -- left, with the right code, if the email is that of the user of the request. Then the request is
  -- patched as consumed, where it has not run out in between; the user is verified, its active sessions on
  -- the device of the request are revoked and a new one is put in their place, which is committed; its keys
  -- in the access state are revoked, and the tokens are for the new session.
  pub verify_email-accepts :
      (email code id : String) (s : LoginState) {t : TokenPairDto} {s' : LoginState}
      → Returns (verify_email b redis v email code id) s t s'
      → IsVerified b redis v email code id s s' t
  unfolding verify_email verify_email_steps to_entity
  verify_email-accepts email code id s {t} {s'} h =
      let h0 = returned (verify_email_steps b redis v email code id s) h in
      let (found, s1, e1, r1) =
        bind-ok (on_logins (get_login_request redis v.read_now id)) _ s h0 in
      let (request, s2, e2, r2) = bind-ok (or_raise found invalid_login_request) _ s1 r1 in
      let (row, s3, e3, r3) = bind-ok (on_world (get_by_id b request.user_id)) _ s2 r2 in
      let (u, s4, e4, r4) = bind-ok (user_of_email email request.attempts_left row) _ s3 r3 in
      let (_, s5, e5, r5) = bind-ok (check_request b redis v request) _ s4 r4 in
      let (q, f1, g1) = on_logins-Returns (get_login_request redis v.read_now id) s e1 in
      let (p1, p2) = get_login_request-Returns redis v.read_now id s.logins f1 in
      let (there, g2) = or_raise-Returns found invalid_login_request s1 e2 in
      let (w, f3, g3) = on_world-Returns (get_by_id b request.user_id) s2 e3 in
      let (p3, p4) = get_by_id-Returns b s2.world request.user_id f3 in
      let (p5, p6, g4) = user_of_email-Returns email request.attempts_left row s3 e4 in
      let (c1, c2, c3, g5) = check_request-Returns b redis v request s4 e5 in
      let back2 : s2 ≡ s = g2 ∙ g1 ∙ ap (λ y. record s { logins = y }) p1 in
      let back3 : s3 ≡ s2 = g3 ∙ ap (λ y. record s2 { world = y }) p3 in
      let back : s5 ≡ s = g5 ∙ g4 ∙ back3 ∙ back2 in
      let (right, r6) =
        on_code-Returns b redis v code id u request s
          (subst (λ y. Returns (on_code b redis v code id u request) y t s') back r5) in
      let (marked, opened) = accept_code-Returns b redis v id u request s r6 in
      let (m, here, eu) =
        user_row request.user_id (completed_at (s.world.db.profiles request.user_id))
          (s.world.db.users request.user_id)
          (ap (λ (y : LoginState). user_at y.world.db request.user_id) (sym back2) ∙ sym p4 ∙ p5) in
      record {
        request = request;
        user = m;
        live = sym p2 ∙ there;
        not_consumed = c1;
        not_expired = c2;
        attempts = c3;
        user_row = here;
        same_email = ap (λ (x : User). x.email) (sym eu) ∙ p6;
        right_code = right;
        marked = marked;
        opened =
            open_session-Returns b redis v request.user_id m
              (completed_at (s.world.db.profiles request.user_id)) request s.world
              (subst (λ y. Returns (open_session b redis v y request) s.world t s'.world) eu
                opened);
      }
    where
      returned :
          (r : Result TokenPairDto × LoginState) {a : TokenPairDto} {x : LoginState}
          → handle (λ _. on_world rollback) r ≡ (ok a, x)
          → r ≡ (ok a, x)
      returned (ok a, x) h = h
      returned (err e, x) h = absurd (cc)

      user_row :
          (id : Uuid) (c : Option Time) (o : Option UserModel) {x : User}
          → map_option (λ m. to_entity id m c) o ≡ some x
          → (m : UserModel) × (o ≡ some m) × (x ≡ to_entity id m c)
      user_row id c none h = absurd (cc)
      user_row id c (some m) h = (m, refl, cc)

-- A log-in request is accepted at most once: after tokens were issued for it, no call that reads the
-- request after that call's patch issues tokens for it, whatever its email and its code are.
pub verify_email-once :
    (b : Backend) (redis : LoginRedis) (v again : Verification)
    (email code email' code' id : String) (s : LoginState) {t t' : TokenPairDto}
    {s' s'' : LoginState}
    → Returns (verify_email b redis v email code id) s t s'
    → v.patch_now ≤ again.read_now
    → ¬ Returns (verify_email b redis again email' code' id) s' t' s''
verify_email-once b redis v again email code email' code' id s {s' = s'} h le h' =
    let x = verify_email-accepts b redis v email code id s h in
    let y = verify_email-accepts b redis again email' code' id s' h' in
    let e =
      consumed-stays v.patch_now again.read_now v.now id s.logins s'.logins y.request le x.marked
        y.live in
    cc (e, y.not_consumed)
