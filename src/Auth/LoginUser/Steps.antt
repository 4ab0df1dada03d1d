-- ===== src/Auth/LoginUser/Steps.antt =====
-- What the parts of `LoginUserUseCase.execute` have done when they return.
use base_backend.Prelude.{
  ◌≡◌, ◌∙◌, ap, sym, subst, String, none, some, contains, if◌then◌else◌, string_eq, update_at, ◌+◌,
  ◌*◌,
}
use base_backend.Errors.{Error, Result, ok, err}
use base_backend.Exec.{Exec, lift, handle}
use base_backend.Exec.Inversion.{Returns, bind-ok, pure-Returns, on-Returns}
use base_backend.Redis.{Time, second, Uuid}
use base_backend.Sql.{Table}
use base_backend.Sql.Upsert.{Upsert, upsert_row}
use base_backend.World.{UserModel, UserDeviceModel, World, Backend, commit}
use base_backend.World.Transactions.{commit-Returns}
use base_backend.Users.Repository.{get_or_create}
use base_backend.Users.Repository.Creation.{HasEmail, get_or_create-Returns}
use base_backend.Auth.{DeviceInfo}
use base_backend.Auth.Repository.{new_device, seen_device, same_device, upsert_user_device}
use base_backend.Auth.LoginRequests.{LoginRedis}
use base_backend.Auth.LoginRequests.Pending.{
  LoginKeys, LoginPipeline, live_members, request_ttl, delete_pending_logins, create_login_request,
}
use base_backend.Auth.LoginRequests.Pending.Effects.{
  create_login_request-Returns, delete_pending_logins-Returns,
}
use base_backend.Auth.VerifyEmail.{LoginState, on_world}
use base_backend.Auth.VerifyEmail.Steps.{on_world-Returns}
use base_backend.Auth.LoginUser.{
  send_otp_code, Login, on_keys, raise_unless, raise_after, code, new_request, prepare, announce,
}

abbrev pub keys_of : LoginState → LoginKeys
keys_of s = record { requests = s.logins; pending = s.pending }

pub on_keys-Returns :
    {A : Type 0} (m : Exec LoginKeys A) (s : LoginState) {a : A} {s' : LoginState}
    → Returns (on_keys m) s a s'
    → (k : LoginKeys) × Returns m (keys_of s) a k
      × (s' ≡ record s { logins = k.requests; pending = k.pending })
on_keys-Returns m s h =
    on-Returns keys_of (λ k (x : LoginState). record x { logins = k.requests; pending = k.pending })
      m s h

pub raise_after-Returns :
    {S A : Type 0} (handler : Exec S (Unit {0})) (r : Result A × S) {a : A} {s : S}
    → raise_after handler r ≡ (ok a, s)
    → r ≡ (ok a, s)
raise_after-Returns handler (ok a, s) h = h
raise_after-Returns {S = S} {A = A} handler (err e, s) h = absurd (never (handler s) h)
  where
    never : (r : Result (Unit {0}) × S) {a : A} {t : S} → ¬ (raise_unless e r ≡ (ok a, t))
    never (ok _, t) h = cc
    never (err _, t) h = cc

pub handle-Returns :
    {S A : Type 0} (g : Error → Exec S (Unit {0})) (r : Result A × S) {a : A} {s : S}
    → handle g r ≡ (ok a, s)
    → r ≡ (ok a, s)
handle-Returns g (ok a, s) h = h
handle-Returns g (err e, s) h = absurd (cc)

-- A raise of a handled action is one of the action.
pub handled :
    {S A : Type 0} (g : Error → Exec S (Unit {0})) (r : Result A × S) {e : Error} {s : S}
    → handle g r ≡ (err e, s)
    → (x : S) × (r ≡ (err e, x))
handled g (ok a, x) h = absurd (cc)
handled {S = S} {A = A} g (err e, x) h = (x, λ i. (err (error_of (h i).0), x))
  where
    error_of : Result A → Error
    error_of (ok _) = e
    error_of (err y) = y

upsert-Returns :
    (sql : Upsert UserDeviceModel) (id u : Uuid) (d : DeviceInfo) (now : Time) (w : World)
    {i : Uuid} {w' : World}
    → Returns (upsert_user_device sql id u d now) w i w'
    → (w'.db.users ≡ w.db.users) × (w'.committed ≡ w.committed)
unfolding upsert_user_device
upsert-Returns sql id u d now w h =
    let (t, f, g) =
      on-Returns (λ (x : World). x.db.devices)
        (λ t (x : World). record x { db = record (x.db) { devices = t } })
        (upsert_row sql (same_device u d) id (new_device u d now) (seen_device d now)) w h in
    (ap (λ (x : World). x.db.users) g, ap (λ (x : World). x.committed) g)

module _ (b : Backend) (devices : Upsert UserDeviceModel) (redis : LoginRedis)
    (pipe : LoginPipeline) (c : Login) where
  -- The user of the email is there, and what was pending for its device is gone.
  pub prepare-Returns :
      (email : String) (device : DeviceInfo) (s : LoginState) {u d : Uuid} {s' : LoginState}
      → Returns (prepare b devices redis pipe c email device) s (u, d) s'
      → HasEmail s'.world.db.users u email
        × (s'.world.committed ≡ s.world.committed)
        × ((id : String)
            → s'.logins id ≡ (
                if contains (live_members c.delete_now (s.pending u d)) id
                then none
                else s.logins id))
  unfolding prepare
  prepare-Returns email device s {u} {d} {s'} h =
      let create = get_or_create b c.new_user_id email c.now in
      let (x, s1, e1, r1) = bind-ok (on_world create) _ s h in
      let upsert = upsert_user_device devices c.new_device_id x.id device c.now in
      let (i, s2, e2, r2) = bind-ok (on_world upsert) _ s1 r1 in
      let drop = delete_pending_logins redis pipe c.delete_now x.id i in
      let (_, s3, e3, r3) = bind-ok (on_keys drop) _ s2 r2 in
      let (w1, f1, g1) = on_world-Returns create s e1 in
      let ((m, here, same), kept) = get_or_create-Returns b c.new_user_id email c.now s.world f1 in
      let (w2, f2, g2) = on_world-Returns upsert s1 e2 in
      let (users, kept2) = upsert-Returns devices c.new_device_id x.id device c.now s1.world f2 in
      let (k, f3, g3) = on_keys-Returns drop s2 e3 in
      let (e4, g4) = pure-Returns (x.id, i) s3 r3 in
      let users_of = λ (y : LoginState). y.world.db.users in
      let committed_of = λ (y : LoginState). y.world.committed in
      let us = ap users_of g4 ∙ ap users_of g3 ∙ ap users_of g2 ∙ users ∙ ap users_of g1 in
      (
        subst (λ j. HasEmail s'.world.db.users j email) (ap (λ (p : Uuid × Uuid). p.0) e4)
            (m, ap (λ (t : Table UserModel). t x.id) us ∙ here, same),
        ap committed_of g4
            ∙ ap committed_of g3
            ∙ ap committed_of g2
            ∙ kept2
            ∙ ap committed_of g1
            ∙ kept,
        λ id.
            let left = λ (y : LoginState) (p : Uuid × Uuid).
              if contains (live_members c.delete_now (y.pending p.0 p.1)) id
              then none
              else y.logins id in
            ap (λ (y : LoginState). y.logins id) g4
            ∙ ap (λ (y : LoginState). y.logins id) g3
            ∙ delete_pending_logins-Returns redis pipe c.delete_now x.id i (keys_of s2) id f3
            ∙ ap (λ y. left y (x.id, i)) g2
            ∙ ap (λ y. left y (x.id, i)) g1
            ∙ ap (λ p. left s p) e4,
      )

  -- The request stands under its id, the code was sent and the rows are committed.
  pub announce-Returns :
      (email : String) (u d : Uuid) (s : LoginState) {s' : LoginState}
      → Returns (announce b devices redis pipe c email (u, d)) s tt s'
      → (s'.world ≡ record (s.world) { committed = s.world.db })
        × (send_otp_code (c.delivery email (code b devices redis pipe c)) ≡ ok tt)
        × (s'.logins
            ≡ update_at c.request_id
                (some (record {
                  request = new_request b devices redis pipe c u d;
                  expires =
                      c.create_now
                      + request_ttl (c.now + c.otp_expire_seconds * second) c.create_now * second;
                }))
                s.logins)
  unfolding announce
  announce-Returns email u d s {s'} h =
      let r = new_request b devices redis pipe c u d in
      let create = create_login_request redis pipe c.create_now c.request_id r in
      let send = send_otp_code (c.delivery email (code b devices redis pipe c)) in
      let (_, s1, e1, r1) = bind-ok (on_keys create) _ s h in
      let (_, s2, e2, r2) = bind-ok (lift send) _ s1 r1 in
      let (k, f1, g1) = on_keys-Returns create s e1 in
      let f2 = ap (λ (p : Result (Unit {0}) × LoginState). p.0) e2 in
      let g2 = sym (ap (λ (p : Result (Unit {0}) × LoginState). p.1) e2) in
      let (w, f3, g3) = on_world-Returns (commit b) s2 r2 in
      let done = commit-Returns b s2.world f3 in
      let commits = λ (y : LoginState). record (y.world) { committed = y.world.db } in
      (
        ap (λ (y : LoginState). y.world) g3 ∙ done ∙ ap commits g2 ∙ ap commits g1,
        f2,
        ap (λ (y : LoginState). y.logins) g3
            ∙ ap (λ (y : LoginState). y.logins) g2
            ∙ ap (λ (y : LoginState). y.logins) g1
            ∙ create_login_request-Returns redis pipe c.create_now c.request_id r (keys_of s) f1,
      )
