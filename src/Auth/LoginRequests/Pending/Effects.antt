-- ===== src/Auth/LoginRequests/Pending/Effects.antt =====
-- What the creation and the deletion of log-in requests leave in Redis when they return.
use base_backend.Prelude.{
  ◌+◌, ◌*◌, ◌≡◌, ◌∙◌, inl, inr, ap, sym, subst, String, Bool, Option, none, some, List, [], ◌∷◌,
  arith, Option-cases, string_eq, nat_eq, update_at, contains, if◌then◌else◌,
}
use base_backend.Exec.Inversion.{Returns, bind-ok}
use base_backend.Redis.{Time, second, Uuid}
use base_backend.Auth.LoginRequests.{LoginRequest, LoginRedis, get_login_request}
use base_backend.Auth.LoginRequests.Pending.{
  LoginKeys, LoginCommand, LoginPipeline, live_members, delete_requests, delete_pending, run,
  on_requests, request_ttl, exec_pipe, read_members, delete_all, delete_pending_logins,
  create_login_request, forget_pending, delete_login_request,
}

module _ (redis : LoginRedis) (pipe : LoginPipeline) (now : Time) where
  pub exec_pipe-Returns :
      (cs : List LoginCommand) (k : LoginKeys) {k' : LoginKeys}
      → Returns (exec_pipe redis pipe now cs) k tt k'
      → k' ≡ run now cs k
  unfolding exec_pipe
  exec_pipe-Returns cs k h = ground (arith, pipe.exec_done now cs k)

  -- The request stands under its key until its time to live is over; the others stay.
  pub create_login_request-Returns :
      (id : String) (r : LoginRequest) (k : LoginKeys) {k' : LoginKeys}
      → Returns (create_login_request redis pipe now id r) k tt k'
      → k'.requests
        ≡ update_at id
            (some (record { request = r; expires = now + request_ttl r.expires_at now * second }))
            k.requests
  unfolding create_login_request run
  create_login_request-Returns id r k h =
      ap (λ (x : LoginKeys). x.requests) (exec_pipe-Returns _ k h)

  read_members-Returns :
      (u d : Uuid) (k : LoginKeys) {ids : List String} {k' : LoginKeys}
      → Returns (read_members redis pipe now u d) k ids k'
      → (k' ≡ k)
        × ((id : String) → contains ids id ≡ contains (live_members now (k.pending u d)) id)
  unfolding read_members
  read_members-Returns u d k {ids} h = elim (Option-cases (pipe.smembers now u d k)) [
    | inl failed ↦ ground arith
    | inr (xs, e) ↦
        let same : xs ≡ ids = ground arith in
        (
          ground arith,
          λ id.
              subst
                (λ (ys : List String).
                  contains ys id ≡ contains (live_members now (k.pending u d)) id)
                same (pipe.smembers_done now u d k id e),
        )
  ]

  delete_all-Returns :
      (ids : List String) (k : LoginKeys) {k' : LoginKeys} (id : String)
      → Returns (delete_all redis pipe now ids) k tt k'
      → k'.requests id ≡ (if contains ids id then none else k.requests id)
  unfolding delete_all run
  delete_all-Returns [] k id h = ap (λ (x : LoginKeys). x.requests id) (sym (ap (λ p. p.1) h))
  delete_all-Returns (x ∷ ids) k id h =
      ap (λ (y : LoginKeys). y.requests id) (exec_pipe-Returns _ k h)

  -- Every request that was pending for the device is gone, and the others are as they were.
  pub delete_pending_logins-Returns :
      (u d : Uuid) (k : LoginKeys) {k' : LoginKeys} (id : String)
      → Returns (delete_pending_logins redis pipe now u d) k tt k'
      → k'.requests id
        ≡ (if contains (live_members now (k.pending u d)) id then none else k.requests id)
  unfolding delete_pending_logins run
  delete_pending_logins-Returns u d k {k'} id h =
      let (ids, k1, e1, r1) = bind-ok (read_members redis pipe now u d) _ k h in
      let (_, k2, e2, r2) = bind-ok (delete_all redis pipe now ids) _ k1 r1 in
      let (same, answer) = read_members-Returns u d k e1 in
      let gone = delete_all-Returns ids k1 id e2 in
      let last =
        ap (λ (y : LoginKeys). y.requests id) (exec_pipe-Returns (delete_pending u d ∷ []) k2 r2) in
      last
      ∙ gone
      ∙ ap (λ (c : Bool). if c then none else k1.requests id) (answer id)
      ∙ ap
          (λ (y : LoginKeys).
            if contains (live_members now (k.pending u d)) id then none else y.requests id)
          same

  forget_pending-Returns :
      (id : String) (o : Option LoginRequest) (k : LoginKeys) {k' : LoginKeys}
      → Returns (forget_pending redis pipe now id o) k tt k'
      → k'.requests ≡ k.requests
  unfolding forget_pending run
  forget_pending-Returns id none k h = ap (λ (x : LoginKeys). x.requests) (sym (ap (λ p. p.1) h))
  forget_pending-Returns id (some r) k h =
      ap (λ (x : LoginKeys). x.requests) (exec_pipe-Returns _ k h)

  -- After the deletion of a request nothing stands under its key.
  pub delete_login_request-Returns :
      (id : String) (k : LoginKeys) {k' : LoginKeys}
      → Returns (delete_login_request redis pipe now id) k tt k'
      → k'.requests id ≡ none
  unfolding delete_login_request run
  delete_login_request-Returns id k h =
      let (found, k1, e1, r1) = bind-ok (on_requests (get_login_request redis now id)) _ k h in
      let (_, k2, e2, r2) =
        bind-ok (exec_pipe redis pipe now (delete_requests (id ∷ []) ∷ [])) _ k1 r1 in
      let f = forget_pending-Returns id found k2 r2 in
      let g = exec_pipe-Returns (delete_requests (id ∷ []) ∷ []) k1 e2 in
      ap (λ (x : String → _). x id) f
      ∙ ap (λ (x : LoginKeys). x.requests id) g
      ∙ ground (arith, string_eq.equal_iff id id)
