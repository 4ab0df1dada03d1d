-- ===== src/Auth/LoginUser/Cleaned.antt =====
-- What a log-in leaves when its code cannot be delivered.
use base_backend.Prelude.{◌≡◌, ◌∙◌, inl, inr, ap, sym, refl, String, false, none, nat_eq, string_eq}
use base_backend.Errors.{Error, Result, ok, err, is_failure}
use base_backend.Exec.{except_raise, lift}
use base_backend.Exec.Inversion.{Returns, bind-ok, bind-err}
use base_backend.Exec.NeverRaises.{Raises}
use base_backend.Redis.{Uuid}
use base_backend.Sql.Upsert.{Upsert}
use base_backend.World.{UserDeviceModel, World, Backend, commit, rollback}
use base_backend.World.Failures.{commit-NeverRaises}
use base_backend.Auth.{DeviceInfo}
use base_backend.Auth.LoginRequests.{LoginRedis}
use base_backend.Auth.LoginRequests.Pending.{
  LoginPipeline, create_login_request, delete_login_request,
}
use base_backend.Auth.LoginRequests.Pending.Effects.{delete_login_request-Returns}
use base_backend.Auth.VerifyEmail.{LoginState, on_world}
use base_backend.Auth.VerifyEmail.Failures.{on_world-NeverRaises}
use base_backend.Auth.LoginUser.{
  Login, send_otp_code, on_keys, raise_unless, raise_after, code, new_request, prepare, announce,
  clean_up, login_user,
}
use base_backend.Auth.LoginUser.Steps.{
  keys_of, on_keys-Returns, handled, handle-Returns, prepare-Returns,
}
use base_backend.Auth.LoginUser.Failures.{
  create_login_request-NeverRaises, on_keys-NeverRaises, prepare-NeverRaises, clean_up-NeverRaises,
}

module _ (b : Backend) (devices : Upsert UserDeviceModel) (redis : LoginRedis)
    (pipe : LoginPipeline) (c : Login) (e : Error) (own : is_failure e ≡ false) where
  -- An error of the handler is a failure, so another one is that of the body.
  raise_after-raises :
      (r : Result (Unit {0}) × LoginState) {s : LoginState}
      → raise_after (clean_up b devices redis pipe c) r ≡ (err e, s)
      → (x : LoginState) × (r ≡ (err e, x)) × Returns (clean_up b devices redis pipe c) x tt s
  raise_after-raises (ok a, x) h = absurd (cc)
  raise_after-raises (err e1, x) {s} h = go (clean_up b devices redis pipe c x) refl h
    where
      go :
          (q : Result (Unit {0}) × LoginState)
          → clean_up b devices redis pipe c x ≡ q
          → raise_unless {A = Unit {0}} e1 q ≡ (err e, s)
          → (y : LoginState) × (◌≡◌ {A = Result (Unit {0}) × LoginState} (err e1, x) (err e, y))
            × Returns (clean_up b devices redis pipe c) y tt s
      go (ok _, t) f g = (
        x,
        λ i. (err (error_of (g i).0), x),
        f
            ∙ ap (λ (z : LoginState). (ok tt, z))
                (ap (λ (p : Result (Unit {0}) × LoginState). p.1) g),
      )
        where
          error_of : Result (Unit {0}) → Error
          error_of (ok _) = e1
          error_of (err y) = y
      go (err e2, t) f g =
          absurd ((clean_up-NeverRaises b devices redis pipe c e own).at x s (f ∙ g))

  undelivered :
      (email : String) (u d : Uuid) (s : LoginState) {s' : LoginState}
      → Raises (announce b devices redis pipe c email (u, d)) s e s'
      → (send_otp_code (c.delivery email (code b devices redis pipe c)) ≡ err e)
        × (s'.world ≡ s.world)
  unfolding announce
  undelivered email u d s {s'} h =
      let create =
        create_login_request redis pipe c.create_now c.request_id
          (new_request b devices redis pipe c u d) in
      let send = send_otp_code (c.delivery email (code b devices redis pipe c)) in
      elim (bind-err (on_keys create) _ s h) [
        | inl f ↦ absurd (
            (on_keys-NeverRaises b devices redis pipe c e own create
                (create_login_request-NeverRaises redis pipe c.create_now e own c.request_id _)).at
              s s' f)
        | inr (_, s1, e1, r1) ↦ elim (bind-err (lift send) _ s1 r1) [
          | inl f ↦
              let (k, _, g) = on_keys-Returns create s e1 in
              (
                ap (λ (p : Result (Unit {0}) × LoginState). p.0) f,
                sym (ap (λ (p : Result (Unit {0}) × LoginState). (p.1).world) f)
                    ∙ ap (λ (y : LoginState). y.world) g,
              )
          | inr (_, s2, e2, r2) ↦
              absurd
                ((on_world-NeverRaises e own (commit b) (commit-NeverRaises b e own)).at s2 s' r2)
        ]
      ]

  cleaned-Returns :
      (s : LoginState) {s' : LoginState}
      → Returns (clean_up b devices redis pipe c) s tt s'
      → (s'.logins c.request_id ≡ none)
        × (s'.world.db ≡ s.world.committed)
        × (s'.world.committed ≡ s.world.committed)
  unfolding clean_up rollback
  cleaned-Returns s h =
      let drop = delete_login_request redis pipe c.cleanup_now c.request_id in
      let (_, s1, e1, r1) = bind-ok (on_keys drop) _ s h in
      let (k, f, g) = on_keys-Returns drop s e1 in
      let last = sym (ap (λ (p : Result (Unit {0}) × LoginState). p.1) r1) in
      (
        ap (λ (y : LoginState). y.logins c.request_id) last
            ∙ ap (λ (y : LoginState). y.logins c.request_id) g
            ∙ delete_login_request-Returns redis pipe c.cleanup_now c.request_id (keys_of s) f,
        ap (λ (y : LoginState). y.world.db) last ∙ ap (λ (y : LoginState). y.world.committed) g,
        ap (λ (y : LoginState). y.world.committed) last
            ∙ ap (λ (y : LoginState). y.world.committed) g,
      )

  -- A log-in that ends with an error other than a failure of the database or of Redis ends with that of the
  -- delivery, `OtpRecipientRejectedError` among them. Then its request is gone, and no row has changed.
  pub login_user-cleans :
      (email : String) (device : DeviceInfo) (s : LoginState) {s' : LoginState}
      → Raises (login_user b devices redis pipe c email device) s e s'
      → (send_otp_code (c.delivery email (code b devices redis pipe c)) ≡ err e)
        × (s'.logins c.request_id ≡ none)
        × (s'.world.db ≡ s.world.committed)
        × (s'.world.committed ≡ s.world.committed)
  unfolding login_user
  login_user-cleans email device s {s'} h =
      let body = prepare b devices redis pipe c email device in
      let first = except_raise body (λ _. on_world rollback) in
      elim (bind-err first _ s h) [
        | inl f ↦
            let (x, g) = handled (λ _. on_world rollback) (body s) f in
            absurd ((prepare-NeverRaises b devices redis pipe c e own email device).at s x g)
        | inr ((u, d), s1, e1, r1) ↦
            let rest = λ (x : LoginState).
              raise_after (clean_up b devices redis pipe c)
                (announce b devices redis pipe c email (u, d) x) in
            elim (bind-err rest _ s1 r1) [
              | inr (_, s2, e2, r2) ↦ absurd (cc)
              | inl f ↦
                  let (x, raised, cleaned) =
                    raise_after-raises (announce b devices redis pipe c email (u, d) s1) f in
                  let prepared = handle-Returns (λ _. on_world rollback) (body s) e1 in
                  let (_, kept, _) =
                    prepare-Returns b devices redis pipe c email device s prepared in
                  let (refused, world) = undelivered email u d s1 raised in
                  let (gone, rows, committed) = cleaned-Returns x cleaned in
                  let before = ap (λ (w : World). w.committed) world ∙ kept in
                  (refused, gone, rows ∙ before, committed ∙ before)
            ]
      ]
