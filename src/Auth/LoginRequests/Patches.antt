-- ===== src/Auth/LoginRequests/Patches.antt =====
-- What a read and a patch of a log-in request leave when they return.
use base_backend.Prelude.{
  ℕ, ◌+◌, ◌*◌, ◌≤◌, ◌≡◌, ◌⊎◌, inl, inr, ap, sym, subst, refl, String, true, Option, none, some,
  is_some, arith, Option-cases, string_eq, nat_eq, update_at,
}
use Prim.Native.Nat.{max}
use base_backend.Exec.Inversion.{Returns, bind-ok}
use base_backend.Redis.{Time, second}
use base_backend.Auth.LoginRequests.{
  LoginRequest, Requests, live_request, LoginRedis, get_login_request, read_ttl, write_request,
  patch_found, patch_request, consumed,
}

module _ (redis : LoginRedis) (now : Time) (id : String) (s : Requests) where
  pub get_login_request-Returns :
      {r : Option LoginRequest} {s' : Requests}
      → Returns (get_login_request redis now id) s r s'
      → (s' ≡ s) × (r ≡ live_request now (s id))
  unfolding get_login_request
  get_login_request-Returns h = elim (Option-cases (redis.get now id s)) [
    | inl failed ↦ ground arith
    | inr (r, e) ↦ ground (arith, redis.get_done now id s e)
  ]

  read_ttl-Returns : {n : ℕ} {s' : Requests} → Returns (read_ttl redis now id) s n s' → s' ≡ s
  unfolding read_ttl
  read_ttl-Returns h = elim (Option-cases (redis.ttl now id s)) [
    | inl failed ↦ ground arith
    | inr (n, e) ↦ ground arith
  ]

  write_request-Returns :
      (r : LoginRequest) (seconds : ℕ) {s' : Requests}
      → Returns (write_request redis now id r seconds) s tt s'
      → s' ≡ update_at id (some (record { request = r; expires = now + seconds * second })) s
  unfolding write_request
  write_request-Returns r seconds h = ground (arith, redis.set_ex_done now id r seconds s)

-- The requests after a patch of one with `f` at `now`: as they were, if nothing live was there, or with
-- that one patched.
abbrev pub Patched : Time → String → (LoginRequest → LoginRequest) → Requests → Requests → Type 0
Patched now id f s s' =
    ((live_request now (s id) ≡ none) × (s' ≡ s))
    ⊎ ((r : LoginRequest) × (seconds : ℕ) × (live_request now (s id) ≡ some r)
        × (s' ≡ update_at id (some (record { request = f r; expires = now + seconds * second })) s))

module _ (redis : LoginRedis) (now : Time) (id : String) (f : LoginRequest → LoginRequest) where
  patch_found-Returns :
      (found : Option LoginRequest) (s : Requests) {s' : Requests}
      → live_request now (s id) ≡ found
      → Returns (patch_found redis now id f found) s tt s'
      → Patched now id f s s'
  unfolding patch_found
  patch_found-Returns none s live h = inl (live, sym (ap (λ p. p.1) h))
  patch_found-Returns (some r) s {s'} live h =
      let (ttl, s1, e1, r1) = bind-ok (read_ttl redis now id) _ s h in
      let same = read_ttl-Returns redis now id s e1 in
      let r2 =
        subst (λ y. Returns (write_request redis now id (f r) (max 1 ttl)) y tt s') same r1 in
      inr (r, max 1 ttl, live, write_request-Returns redis now id s (f r) (max 1 ttl) r2)

  pub patch_request-Returns :
      (s : Requests) {s' : Requests}
      → Returns (patch_request redis now id f) s tt s'
      → Patched now id f s s'
  unfolding patch_request
  patch_request-Returns s {s'} h =
      let (found, s1, e1, r1) = bind-ok (get_login_request redis now id) _ s h in
      let (same, answer) = get_login_request-Returns redis now id s e1 in
      patch_found-Returns found s (sym answer)
        (subst (λ y. Returns (patch_found redis now id f found) y tt s') same r1)

-- A request that was patched as consumed stays consumed as long as it is there.
pub consumed-stays :
    (now later at : Time) (id : String) (s s' : Requests) (r : LoginRequest)
    → now ≤ later
    → Patched now id (consumed at) s s'
    → live_request later (s' id) ≡ some r
    → is_some r.consumed_at ≡ true
consumed-stays now later at id s s' r le (inl (gone, same)) h = elim (Option-cases (s id)) [
  | inl missing ↦
      absurd (ground (arith, subst (λ (y : Requests). live_request later (y id) ≡ some r) same h))
  | inr (e, here) ↦
      absurd (ground (arith, subst (λ (y : Requests). live_request later (y id) ≡ some r) same h))
]
consumed-stays now later at id s s' r le (inr (x, seconds, live, same)) h =
    let h' = subst (λ (y : Requests). live_request later (y id) ≡ some r) same h in
    ground (arith, h', (string_eq.equal_iff id id).1 refl)
