-- ===== src/Auth/Repository/Effects.antt =====
-- What each operation of the auth repository leaves in the database when it returns.
use base_backend.Prelude.{
  ℕ, zero, suc, ◌≡◌, refl, inl, inr, Bool, true, false, ◌&&◌, Option, none, some, is_none, arith,
  Option-cases, filter_option, map_option, update_at, ltb, nat_eq, ◌==◌, subst,
}
use base_backend.Exec.Inversion.{Returns}
use base_backend.Redis.{Time, Uuid}
use base_backend.Sql.{Table, update_rows, select_one, update_all, insert_row}
use base_backend.World.{UserDeviceModel, UserSessionModel, World, Backend}
use base_backend.Auth.{UserSession}
use base_backend.Auth.Repository.{
  session_entity, is_active, revoked, lock_user_refresh, touch_user_device, create_session,
  get_session, get_session_for_update, revoke_session, revoke_session_by_id,
  revoke_all_active_for_user,
}

abbrev pub with_sessions : Table UserSessionModel → World → World
with_sessions t w = record w { db = record (w.db) { sessions = t } }

abbrev pub with_devices : Table UserDeviceModel → World → World
with_devices t w = record w { db = record (w.db) { devices = t } }

-- The sessions after the active ones that satisfy `p` are revoked.
abbrev pub revoke_where :
    (Uuid → UserSessionModel → Bool) → Time → Table UserSessionModel → Table UserSessionModel
revoke_where p at t =
    update_rows (λ k m. p k m && is_none m.revoked_at) (λ m. record m { revoked_at = some at }) t

module _ (b : Backend) (w : World) where
  pub lock_user_refresh-Returns :
      (u : Uuid) {w' : World} → Returns (lock_user_refresh b u) w tt w' → w' ≡ w
  unfolding lock_user_refresh
  lock_user_refresh-Returns u h = ground arith

  pub get_session-Returns :
      (sid : Uuid) {r : Option UserSession} {w' : World}
      → Returns (get_session b sid) w r w'
      → (w' ≡ w) × (r ≡ map_option (λ m. session_entity sid m none) (w.db.sessions sid))
  unfolding get_session select_one
  get_session-Returns sid h =
      elim (Option-cases (b.sessions.select sid (λ _. true) w.db.sessions)) [
        | inl failed ↦ ground arith
        | inr (_, e) ↦ ground (arith, b.sessions.select_done sid (λ _. true) w.db.sessions e)
      ]

  pub get_session_for_update-Returns :
      (sid : Uuid) {r : Option UserSession} {w' : World}
      → Returns (get_session_for_update b sid) w r w'
      → (w' ≡ w)
        × (r
            ≡ map_option
                (λ m. session_entity sid m none)
                (filter_option is_active (w.db.sessions sid)))
  unfolding get_session_for_update select_one
  get_session_for_update-Returns sid h =
      elim (Option-cases (b.sessions.select sid is_active w.db.sessions)) [
        | inl failed ↦ ground arith
        | inr (_, e) ↦ ground (arith, b.sessions.select_done sid is_active w.db.sessions e)
      ]

  pub revoke_session_by_id-Returns :
      (sid : Uuid) (at : Time) {w' : World}
      → Returns (revoke_session_by_id b sid at) w tt w'
      → w' ≡ with_sessions (revoke_where (λ k _. k == sid) at w.db.sessions) w
  unfolding revoke_session_by_id update_all
  revoke_session_by_id-Returns sid at h =
      elim (Option-cases
        (b.sessions.update (λ k m. (k == sid) && is_active m) (revoked at) w.db.sessions)) [
          | inl failed ↦ ground arith
          | inr ((_, _), e) ↦ ground (arith, b.sessions.update_done _ _ w.db.sessions e)
        ]

  pub revoke_all_active_for_user-Returns :
      (u : Uuid) (at : Time) {w' : World}
      → Returns (revoke_all_active_for_user b u at) w tt w'
      → w' ≡ with_sessions (revoke_where (λ _ m. m.user_id == u) at w.db.sessions) w
  unfolding revoke_all_active_for_user update_all
  revoke_all_active_for_user-Returns u at h =
      elim (Option-cases
        (b.sessions.update (λ _ m. (m.user_id == u) && is_active m) (revoked at) w.db.sessions)) [
          | inl failed ↦ ground arith
          | inr ((_, _), e) ↦ ground (arith, b.sessions.update_done _ _ w.db.sessions e)
        ]

  pub create_session-Returns :
      (sid : Uuid) (m : UserSessionModel) {w' : World}
      → Returns (create_session b sid m) w tt w'
      → (w.db.sessions sid ≡ none)
        × (w'
            ≡ with_sessions (update_at sid (some (record m { revoked_at = none })) w.db.sessions) w)
  unfolding create_session insert_row
  create_session-Returns sid m h =
      elim (Option-cases (b.sessions.insert sid (record m { revoked_at = none }) w.db.sessions)) [
        | inl failed ↦ ground arith
        | inr (_, e) ↦
            ground
              (arith, b.sessions.insert_done sid (record m { revoked_at = none }) w.db.sessions e)
      ]

  pub touch_user_device-Returns :
      (d : Uuid) (at : Time) {w' : World}
      → Returns (touch_user_device b d at) w tt w'
      → w'
        ≡ with_devices
            (update_rows (λ k _. k == d) (λ m. record m { last_seen_at = at }) w.db.devices)
            w
  unfolding touch_user_device update_all
  touch_user_device-Returns d at h =
      elim (Option-cases
        (b.devices.update (λ k _. k == d) (λ m. record m { last_seen_at = at }) w.db.devices)) [
          | inl failed ↦ ground arith
          | inr ((_, _), e) ↦ ground (arith, b.devices.update_done _ _ w.db.devices e)
        ]

-- The session is there, belongs to `u` and is not revoked.
abbrev pub owns : Uuid → Option UserSessionModel → Bool
owns u none = false
owns u (some m) = (m.user_id == u) && is_active m

module _ (b : Backend) (w : World) (sid u : Uuid) (at : Time) where
  abbrev pub matches : Uuid → UserSessionModel → Bool
  matches k m = (k == sid) && ((m.user_id == u) && is_active m)

  -- No row matched, or the row of the key did.
  counted :
      (n : ℕ) (t : Table UserSessionModel)
      → b.sessions.update matches (revoked at) w.db.sessions ≡ some (n, t)
      → ltb 0 n ≡ owns u (w.db.sessions sid)
  counted zero t e = elim (Option-cases (w.db.sessions sid)) [
    | inl missing ↦ ground arith
    | inr (m, found) ↦
        ground (arith, b.sessions.update_none matches (revoked at) w.db.sessions sid e found)
  ]
  counted (suc n) t e =
      let (k, m, found, p) =
        b.sessions.update_some matches (revoked at) w.db.sessions e (omega arith) in
      let same : k ≡ sid = ground arith in
      let here : w.db.sessions sid ≡ some m = subst (λ j. w.db.sessions j ≡ some m) same found in
      rw here (ground arith)

  pub revoke_session-Returns :
      {r : Bool} {w' : World}
      → Returns (revoke_session b sid u at) w r w'
      → (r ≡ owns u (w.db.sessions sid))
        × (w' ≡ with_sessions (update_rows matches (revoked at) w.db.sessions) w)
  unfolding revoke_session update_all
  revoke_session-Returns h =
      elim (Option-cases (b.sessions.update matches (revoked at) w.db.sessions)) [
        | inl failed ↦ ground arith
        | inr ((n, t), e) ↦
            ground
              (arith, counted n t e, b.sessions.update_done matches (revoked at) w.db.sessions e)
      ]

-- The row behind a session.
pub session_entity-some :
    (sid : Uuid) (row : Option UserSessionModel) {x : UserSession}
    → map_option (λ m. session_entity sid m none) row ≡ some x
    → (m : UserSessionModel) × (row ≡ some m)
      × (x.revoked_at ≡ m.revoked_at)
      × (x.expires_at ≡ m.expires_at)
      × (x.user_id ≡ m.user_id)
      × (x.user_device_id ≡ m.user_device_id)
      × (x.refresh_token_hash ≡ m.refresh_token_hash)
unfolding session_entity
session_entity-some sid none h = absurd (cc)
session_entity-some sid (some m) h =
    (m, refl, ground arith, ground arith, ground arith, ground arith, ground arith)
