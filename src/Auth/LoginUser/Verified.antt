-- ===== src/Auth/LoginUser/Verified.antt =====
-- A log-in and the verification of its code: the code that was sent is accepted, unless a dependency fails.
use base_backend.Prelude.{
  ℕ, ◌+◌, ◌*◌, ◌≤◌, ◌<◌, ◌≡◌, ◌∙◌, inl, inr, ap, subst, refl, arith, String, true, false, Option,
  none, some, Bool-cases, ltb, string_eq, nat_eq, is_some, map_option,
}
use base_backend.Errors.{
  Error, is_failure, invalid_login_request, login_request_already_used, otp_expired,
}
use base_backend.Exec.{Exec, raise_if, ◌>>=◌, ◌>>◌, or_raise}
use base_backend.Exec.Inversion.{Returns, bind-err}
use base_backend.Exec.NeverRaises.{Raises}
use base_backend.Redis.{Time, second, Uuid}
use base_backend.Sql.Upsert.{Upsert}
use base_backend.World.{UserModel, UserDeviceModel, Backend, rollback}
use base_backend.Users.{User}
use base_backend.Users.Repository.{get_by_id, to_entity, completed_at}
use base_backend.Users.Repository.Creation.{HasEmail}
use base_backend.Users.Repository.Effects.{user_at, get_by_id-Returns}
use base_backend.Auth.{DeviceInfo, LoginResultDto, TokenPairDto}
use base_backend.Auth.LoginRequests.{LoginRequest, live_request, LoginRedis, get_login_request}
use base_backend.Auth.LoginRequests.Patches.{get_login_request-Returns}
use base_backend.Auth.LoginRequests.Pending.{LoginPipeline, request_ttl}
use base_backend.Auth.VerifyEmail.{
  Verification, LoginState, on_world, on_logins, user_of_email, otp_ok, check_request, on_code,
  verify_email_steps, verify_email,
}
use base_backend.Auth.VerifyEmail.Steps.{on_world-Returns, on_logins-Returns, or_raise-Returns}
use base_backend.Auth.VerifyEmail.Failures.{
  on_world-NeverRaises, on_logins-NeverRaises, get_login_request-NeverRaises, get_by_id-NeverRaises,
  accept_code-NeverRaises,
}
use base_backend.Auth.LoginUser.Steps.{handled}
use base_backend.Auth.LoginUser.{Login, code, new_request, login_user}
use base_backend.Auth.LoginUser.Requested.{login_user-Returns}

-- The time to live of a request is rounded down to a second.
request_lives :
    (r : LoginRequest) (created now : Time)
    → now + second ≤ r.expires_at
    → live_request now (
        some
          (record { request = r; expires = created + request_ttl r.expires_at created * second }))
      ≡ some r
request_lives r created now h =
    let q : now < created + request_ttl r.expires_at created * second = ground arith in ground arith

found-or_raise :
    {A : Type 0} (o : Option A) (x e : Error) (s : LoginState) {a : A} {s' : LoginState}
    → o ≡ some a
    → ¬ Raises (or_raise o x) s e s'
found-or_raise none x e s there h = cc
found-or_raise (some a) x e s there h = cc

found-user_of_email :
    (email : String) (n : ℕ) (o : Option User) (e : Error) (s : LoginState) {u : User}
    {s' : LoginState}
    → o ≡ some u
    → u.email ≡ email
    → ¬ Raises (user_of_email email n o) s e s'
found-user_of_email email n none e s there same h = cc
found-user_of_email email n (some y) e s {u} there same h =
    let q : y.email ≡ email = ap (λ (o : Option User). mail y.email o) there ∙ same in
    ground (arith, h, string_eq.equal_iff y.email email)
  where
    mail : String → Option User → String
    mail d none = d
    mail d (some z) = z.email

-- The user of a row with this email.
found_user :
    (email : String) (s : LoginState) (u : Uuid)
    → HasEmail s.world.db.users u email
    → (x : User) × (user_at s.world.db u ≡ some x) × (x.email ≡ email)
unfolding to_entity
found_user email s u (m, here, same) = (
  to_entity u m (completed_at (s.world.db.profiles u)),
  ap (map_option (λ (x : UserModel). to_entity u x (completed_at (s.world.db.profiles u)))) here,
  same,
)

module _ (b : Backend) (redis : LoginRedis) (v : Verification) where
  open_request :
      (r : LoginRequest) (e : Error) (s : LoginState) {s' : LoginState}
      → r.consumed_at ≡ none
      → v.now ≤ r.expires_at
      → 0 < r.attempts_left
      → ¬ Raises (check_request b redis v r) s e s'
  unfolding check_request
  open_request r e s fresh intime left h =
      let used =
        raise_if (is_some r.consumed_at) (login_request_already_used (some r.attempts_left)) in
      elim (bind-err used _ s h) [
        | inl f ↦ ground arith
        | inr (_, s1, e1, r1) ↦
            elim (bind-err (raise_if (ltb r.expires_at v.now) otp_expired) _ s1 r1) [
              | inl f ↦ ground arith
              | inr (_, s2, e2, r2) ↦ ground arith
            ]
      ]

  right_code :
      (code id : String) (u : User) (r : LoginRequest) (e : Error) (s : LoginState)
      {s' : LoginState}
      → is_failure e ≡ false
      → otp_ok b redis v code r ≡ true
      → ¬ Raises (on_code b redis v code id u r) s e s'
  unfolding on_code
  right_code code id u r e s {s'} own right h =
      (accept_code-NeverRaises e own b redis v id u r).at s s' (rw right at h)

  -- The steps after the look-up of the request.
  abbrev with_request : String → String → String → LoginRequest → Exec LoginState TokenPairDto
  with_request email code id r = do
    row ← on_world (get_by_id b r.user_id)
    user ← user_of_email email r.attempts_left row
    check_request b redis v r
    on_code b redis v code id user r

  with_request-accepts :
      (email code id : String) (r : LoginRequest) (e : Error) (s : LoginState) {s' : LoginState}
      → is_failure e ≡ false
      → HasEmail s.world.db.users r.user_id email
      → r.consumed_at ≡ none
      → v.now ≤ r.expires_at
      → 0 < r.attempts_left
      → otp_ok b redis v code r ≡ true
      → ¬ Raises (with_request email code id r) s e s'
  with_request-accepts email code id r e s {s'} own row fresh intime left right h =
      let get = get_by_id b r.user_id in
      let (x, at, same) = found_user email s r.user_id row in
      elim (bind-err (on_world get) _ s h) [
        | inl f ↦
            (on_world-NeverRaises e own get (get_by_id-NeverRaises e own b redis v r.user_id)).at s
              s' f
        | inr (found, s1, e1, r1) ↦
            let (w, f1, g1) = on_world-Returns get s e1 in
            let answer = (get_by_id-Returns b s.world r.user_id f1).1 in
            elim (bind-err (user_of_email email r.attempts_left found) _ s1 r1) [
              | inl f ↦ found-user_of_email email r.attempts_left found e s1 (answer ∙ at) same f
              | inr (u, s2, e2, r2) ↦ elim (bind-err (check_request b redis v r) _ s2 r2) [
                | inl f ↦ open_request r e s2 fresh intime left f
                | inr (_, s3, e3, r3) ↦ right_code code id u r e s3 own right r3
              ]
            ]
      ]

  -- The body of `try`, on a request that passes every test.
  steps-accept :
      (email code id : String) (r : LoginRequest) (e : Error) (s : LoginState) {s' : LoginState}
      → is_failure e ≡ false
      → live_request v.read_now (s.logins id) ≡ some r
      → HasEmail s.world.db.users r.user_id email
      → r.consumed_at ≡ none
      → v.now ≤ r.expires_at
      → 0 < r.attempts_left
      → otp_ok b redis v code r ≡ true
      → ¬ Raises (verify_email_steps b redis v email code id) s e s'
  unfolding verify_email_steps
  steps-accept email code id r e s {s'} own live row fresh intime left right h =
      let get = get_login_request redis v.read_now id in
      elim (bind-err (on_logins get) _ s h) [
        | inl f ↦
            (on_logins-NeverRaises e own get
                (get_login_request-NeverRaises e own redis v.read_now id)).at
              s s' f
        | inr (found, s1, e1, r1) ↦
            let (q, f1, g1) = on_logins-Returns get s e1 in
            let (p1, p2) = get_login_request-Returns redis v.read_now id s.logins f1 in
            let there = p2 ∙ live in
            elim (bind-err (or_raise found invalid_login_request) _ s1 r1) [
              | inl f ↦ found-or_raise found invalid_login_request e s1 there f
              | inr (x, s2, e2, r2) ↦
                  let (same, g2) = or_raise-Returns found invalid_login_request s1 e2 in
                  let back = g2 ∙ g1 ∙ ap (λ y. record s { logins = y }) p1 in
                  let is_r : x ≡ r = cc (same, there) in
                  with_request-accepts email code id r e s own row fresh intime left right (
                    subst (λ y. Raises (with_request email code id y) s e s') is_r
                      (subst (λ y. Raises (with_request email code id x) y e s') back r2))
            ]
      ]

-- After a log-in has returned, the code that was sent for it is accepted with the email and the request
-- that it was sent for, up to a second before the request expires: the verification that comes next raises
-- only failures of the database and of Redis, also where these answer otherwise by then. It is assumed of bcrypt that a code matches its hash, and of
-- the settings that there is at least one attempt.
pub login_user-verifies :
    (b later : Backend) (devices : Upsert UserDeviceModel) (redis : LoginRedis)
    (pipe : LoginPipeline) (c : Login) (v : Verification) (email : String) (device : DeviceInfo)
    (s : LoginState) {r : LoginResultDto} {s' s'' : LoginState} {e : Error}
    → Returns (login_user b devices redis pipe c email device) s r s'
    → v.verify_otp (code b devices redis pipe c) (c.hash_otp (code b devices redis pipe c)) ≡ true
    → 0 < c.otp_max_attempts
    → v.read_now + second ≤ c.now + c.otp_expire_seconds * second
    → v.now ≤ c.now + c.otp_expire_seconds * second
    → Raises
        (verify_email later redis v email (code b devices redis pipe c) r.login_request_id)
        s'
        e
        s''
    → is_failure e ≡ true
unfolding verify_email
login_user-verifies b later devices redis pipe c v email device s {r} {s'} {s''} {e} done matches
      left live intime h =
    elim (Bool-cases (is_failure e)) [
      | inl failed ↦ failed
      | inr own ↦
          let (named, q) = login_user-Returns b devices redis pipe c email device s done in
          let sent_code = code b devices redis pipe c in
          let request = new_request b devices redis pipe c q.user_id q.device_id in
          let (x, f) =
            handled (λ _. on_world rollback)
              (verify_email_steps later redis v email sent_code r.login_request_id s') h in
          absurd (
            steps-accept later redis v email sent_code c.request_id request e s' own
              (ap (λ o. live_request v.read_now o) q.stored
                ∙ request_lives request c.create_now v.read_now live)
              q.user_row refl intime left (ground (arith, matches))
              (subst (λ id. Raises (verify_email_steps later redis v email sent_code id) s' e x)
                named f))
    ]
