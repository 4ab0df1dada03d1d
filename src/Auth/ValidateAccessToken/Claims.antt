-- ===== src/Auth/ValidateAccessToken/Claims.antt =====
-- The claims of an accepted access token, and the round trip from `create_access_token`.
use base_backend.Prelude.{
  ℕ, ◌+◌, ◌*◌, ◌/◌, ◌≤◌, ◌≡◌, refl, sym, ap, ◌∙◌, subst, String, Bool, true, false, not, some,
  arith, ltb, if◌then◌else◌,
}
use base_backend.Errors.{Result, ok, err, token_expired, invalid_token}
use base_backend.Exec.{raise_if, lift}
use base_backend.Exec.Inversion.{Returns, bind-ok, pure-Returns, raise_if-Returns}
use base_backend.Redis.{Time, second, other}
use base_backend.Authorization.{UserRole, super_admin, admin, user, CurrentPrincipal}
use base_backend.World.{World, Backend, RoundTrips, Payload, claims, expired, Jwt}
use base_backend.Auth.Tokens.{
  uuid_claim, role_claim, int_claim, decoded, decode_token, create_access_token, access_payload,
  minute, role_value,
}
use base_backend.Auth.ValidateAccessToken.{
  ValidateCall, or_invalid, is_access, read_claims, check_access, validate_access_token,
}

-- The claims of an access token name the principal, and its version is at least 1.
pub record Names (payload : Payload) (p : CurrentPrincipal) : Type 0 where
  pub access : is_access payload ≡ true
  pub sub : uuid_claim payload.sub ≡ ok p.user_id
  pub sid : uuid_claim payload.sid ≡ ok p.session_id
  pub role : role_claim payload.role ≡ ok p.role
  pub av : int_claim payload.av ≡ ok p.authorization_version
  pub version : 1 ≤ p.authorization_version

or_invalid-ok : {A : Type 0} (r : Result A) {a : A} → or_invalid r ≡ ok a → r ≡ ok a
or_invalid-ok (ok a) h = h
or_invalid-ok (err e) h = absurd (cc)

lift-Returns :
    {A : Type 0} (r : Result A) (w : World) {a : A} {w' : World}
    → Returns (lift (or_invalid r)) w a w'
    → (r ≡ ok a) × (w' ≡ w)
lift-Returns r w h = (or_invalid-ok r (λ i. (h i).0), sym (λ i. (h i).1))

pub read_claims-Returns :
    (payload : Payload) (w : World) {q : CurrentPrincipal} {w' : World}
    → is_access payload ≡ true
    → Returns (read_claims payload) w q w'
    → Names payload q × (w' ≡ w)
unfolding read_claims
read_claims-Returns payload w {q} access h =
    let (u, w1, e1, r1) = bind-ok (lift (or_invalid (uuid_claim payload.sub))) _ w h in
    let (s, w2, e2, r2) = bind-ok (lift (or_invalid (uuid_claim payload.sid))) _ w1 r1 in
    let (role, w3, e3, r3) = bind-ok (lift (or_invalid (role_claim payload.role))) _ w2 r2 in
    let (v, w4, e4, r4) = bind-ok (lift (or_invalid (int_claim payload.av))) _ w3 r3 in
    let (_, w5, e5, r5) = bind-ok (raise_if (ltb v 1) invalid_token) _ w4 r4 in
    let (c1, s1) = lift-Returns (uuid_claim payload.sub) w e1 in
    let (c2, s2) = lift-Returns (uuid_claim payload.sid) w1 e2 in
    let (c3, s3) = lift-Returns (role_claim payload.role) w2 e3 in
    let (c4, s4) = lift-Returns (int_claim payload.av) w3 e4 in
    let (c5, s5) = raise_if-Returns (ltb v 1) invalid_token w4 e5 in
    let (eq, s6) = pure-Returns _ w5 r5 in
    (
      record {
        access = access;
        sub = c1 ∙ ap (λ p. ok p.user_id) eq;
        sid = c2 ∙ ap (λ p. ok p.session_id) eq;
        role = c3 ∙ ap (λ p. ok p.role) eq;
        av = c4 ∙ ap (λ p. ok p.authorization_version) eq;
        version = subst (λ p. 1 ≤ p.authorization_version) eq (ground arith);
      },
      s6 ∙ s5 ∙ s4 ∙ s3 ∙ s2 ∙ s1,
    )

module _ (b : Backend) (call : ValidateCall) where
  -- A token that is accepted decodes to the claims of an access token; the result is the principal
  -- that they name, which `check_access` has accepted.
  pub validate_access_token-Returns :
      (token : String) (w : World) {q : CurrentPrincipal} {w' : World}
      → Returns (validate_access_token b call token) w q w'
      → (payload : Payload) × (p : CurrentPrincipal) × (decode_token b.jwt call.decode_now token
          ≡ ok payload)
        × Names payload p
        × Returns (check_access b call p) w q w'
  unfolding validate_access_token
  validate_access_token-Returns token w {q} {w'} h =
      let (payload, w1, e1, r1) = bind-ok (lift (decode_token b.jwt call.decode_now token)) _ w h in
      let (_, w2, e2, r2) = bind-ok (raise_if (not (is_access payload)) invalid_token) _ w1 r1 in
      let (p, w3, e3, r3) = bind-ok (read_claims payload) _ w2 r2 in
      let (access, s2) = raise_if-Returns (not (is_access payload)) invalid_token w1 e2 in
      let (names, s3) = read_claims-Returns payload w2 (ground arith) e3 in
      let s1 : w1 ≡ w = sym (ap (λ p. p.1) e1) in
      (
        payload,
        p,
        ap (λ x. x.0) e1,
        names,
        subst (λ y. Returns (check_access b call p) y q w') (s3 ∙ s2 ∙ s1) r3,
      )

role_claim-role_value : (role : UserRole) → role_claim (some (other (role_value role))) ≡ ok role
role_claim-role_value super_admin = refl
role_claim-role_value admin = refl
role_claim-role_value user = refl

-- The claims that `create_access_token` writes name the principal that it was given.
pub access_payload-Names :
    (now : Time) (minutes : ℕ) (p : CurrentPrincipal)
    → 1 ≤ p.authorization_version
    → Names (access_payload now minutes p.user_id p.session_id p.role p.authorization_version) p
unfolding access_payload is_access
access_payload-Names now minutes p h = record {
  access = refl;
  sub = refl;
  sid = refl;
  role = role_claim-role_value p.role;
  av = refl;
  version = h;
}

decoded-if :
    (c : Bool) (payload : Payload)
    → decoded (if c then claims payload else expired)
      ≡ (if c then ok payload else err token_expired)
decoded-if true payload = refl
decoded-if false payload = refl

-- A token of `create_access_token` decodes to claims that name its principal until it expires, and
-- is refused from then on.
pub decode-create_access_token :
    (jwt : Jwt) (issued now : Time) (minutes : ℕ) (p : CurrentPrincipal)
    → 1 ≤ p.authorization_version
    → issued ≤ now
    → RoundTrips jwt
        (access_payload issued minutes p.user_id p.session_id p.role p.authorization_version)
    → let payload =
        access_payload issued minutes p.user_id p.session_id p.role p.authorization_version in
      (decode_token jwt now (
          create_access_token jwt issued minutes p.user_id p.session_id p.role
            p.authorization_version)
        ≡ (if ltb now ((issued + minutes * minute) / second * second)
            then ok payload
            else err token_expired))
      × Names payload p
unfolding create_access_token decode_token access_payload
decode-create_access_token jwt issued now minutes p h le trips =
    let payload =
      access_payload issued minutes p.user_id p.session_id p.role p.authorization_version in
    let exp = (issued + minutes * minute) / second in
    let e = trips.decode-encode now (issued / second) exp refl refl (omega arith) in
    (
      ap decoded e ∙ decoded-if (ltb now (exp * second)) payload,
      access_payload-Names issued minutes p h,
    )
