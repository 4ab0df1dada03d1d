-- ===== src/Administration/Effects.antt =====
-- What the use cases that change a user's role or status leave when they return.
use base_backend.Prelude.{
  ◌+◌, ◌≡◌, ◌∙◌, ap, subst, sym, refl, Option, none, some, ◌==◌, nat_eq, map_option, update_at,
}
use base_backend.Errors.{Error, user_not_found}
use base_backend.Exec.{pure, or_raise, ◌>>◌}
use base_backend.Exec.Inversion.{Returns, bind-ok, pure-Returns}
use base_backend.Redis.{Time, Uuid, Keyspace}
use base_backend.Authorization.{UserRole, UserStatus, deletion_requested, deleted}
use base_backend.Authorization.Store
use base_backend.World.{UserModel, Db, World, Backend, on_redis, commit, rollback}
use base_backend.World.Transactions.{commit-Returns, on_redis-Returns}
use base_backend.Users.{User, UserDto, user_dto}
use base_backend.Users.Repository.{to_entity, update_role, update_status}
use base_backend.Users.Repository.Effects.{with_users, update_role-Returns, update_status-Returns}
use base_backend.Auth.Repository.{revoke_all_active_for_user}
use base_backend.Auth.Repository.Effects.{revoke_where, revoke_all_active_for_user-Returns}
use base_backend.Administration.{
  updated_or_rollback, set_version, change_user_role_steps, change_user_status_steps,
  request_account_deletion_steps, approve_user_deletion_request_steps,
}

-- A row with another role and the next version.
abbrev pub set_role : UserRole → UserModel → UserModel
set_role role m = record {
  email = m.email;
  role = role;
  status = m.status;
  authorization_version = m.authorization_version + 1;
  is_verified = m.is_verified;
  created_at = m.created_at;
}

-- A row with another status and the next version.
abbrev pub set_status : UserStatus → UserModel → UserModel
set_status status m = record {
  email = m.email;
  role = m.role;
  status = status;
  authorization_version = m.authorization_version + 1;
  is_verified = m.is_verified;
  created_at = m.created_at;
}

-- The row of `u` is replaced by its image under `f`.
abbrev pub changed_db : Uuid → (UserModel → UserModel) → Db → Db
changed_db u f db = record db { users = update_at u (map_option f (db.users u)) db.users }

-- The row of `u` was changed by `f`, which is committed, and the cache has got its version.
pub record IsChanged (b : Backend) (now : Time) (u : Uuid) (f : UserModel → UserModel)
    (w w' : World) : Type 0 where
  pub row : UserModel
  pub redis : Keyspace
  pub user_row : w.db.users u ≡ some row
  pub told :
      Returns
        (Store.set_authorization_version b.redis now u (f row).authorization_version)
        w.redis
        tt
        redis
  pub state :
      w' ≡ record { db = changed_db u f w.db; committed = changed_db u f w.db; redis = redis }

-- A deletion was approved: the user is deleted and its sessions are revoked, which is committed; the
-- cache has got the new version and then lost the sessions.
pub record IsApproved (b : Backend) (now : Time) (u : Uuid) (w w' : World) : Type 0 where
  pub row : UserModel
  pub versioned : Keyspace
  pub redis : Keyspace
  pub user_row : w.db.users u ≡ some row
  pub told :
      Returns
        (Store.set_authorization_version b.redis now u
          (set_status deleted row).authorization_version)
        w.redis
        tt
        versioned
  pub revoked : Returns (Store.revoke_all_sessions b.redis now u) versioned tt redis
  pub state :
      let db = record (changed_db u (set_status deleted) w.db) {
        sessions = revoke_where (λ _ m. m.user_id == u) now w.db.sessions;
      } in
      w' ≡ record { db = db; committed = db; redis = redis }

module _ (b : Backend) (now : Time) (u : Uuid) where
  pub or_raise-Returns :
      {A : Type 0} (o : Option A) (e : Error) (s : World) {x : A} {w' : World}
      → Returns (or_raise o e) s x w'
      → (o ≡ some x) × (w' ≡ s)
  or_raise-Returns none e s h = absurd (cc)
  or_raise-Returns (some a) e s h = (cc, cc)

  updated-Returns :
      (o : Option User) (s : World) {x : User} {w' : World}
      → Returns (updated_or_rollback o) s x w'
      → (o ≡ some x) × (w' ≡ s)
  unfolding updated_or_rollback rollback
  updated-Returns none s h = absurd (cc)
  updated-Returns (some a) s h = (cc, cc)

  set_version-Returns :
      (x : User) (s : World) {w' : World}
      → Returns (set_version b now x) s tt w'
      → (k : Keyspace) × Returns
          (Store.set_authorization_version b.redis now x.id x.authorization_version)
          s.redis
          tt
          k
        × (w' ≡ record s { redis = k })
  unfolding set_version
  set_version-Returns x s h =
      on_redis-Returns (Store.set_authorization_version b.redis now x.id x.authorization_version) s
        h

  updated_row :
      (f : UserModel → UserModel) (o : Option UserModel) {x : User}
      → map_option (λ m. to_entity u (f m) none) o ≡ some x
      → (m : UserModel) × (o ≡ some m) × (x ≡ to_entity u (f m) none)
  updated_row f none h = absurd (cc)
  updated_row f (some m) h = (m, refl, cc)

  -- The end of the three use cases that change a row and nothing else.
  announced :
      (f : UserModel → UserModel) (w s : World) (x : User) {d : UserDto} {w' : World}
      → map_option (λ m. to_entity u (f m) none) (w.db.users u) ≡ some x
      → s ≡ with_users (update_at u (map_option f (w.db.users u)) w.db.users) w
      → Returns (set_version b now x >> (commit b >> pure (user_dto x))) s d w'
      → IsChanged b now u f w w'
  unfolding to_entity
  announced f w s x {d} {w'} there same h =
      let (m, row, e) = updated_row f (w.db.users u) there in
      let s0 = with_users (update_at u (map_option f (w.db.users u)) w.db.users) w in
      let h' =
        subst (λ y. Returns (set_version b now y >> (commit b >> pure (user_dto x))) s0 d w') e
          (subst (λ y. Returns (set_version b now x >> (commit b >> pure (user_dto x))) y d w') same
            h) in
      let (_, w1, e1, r1) = bind-ok (set_version b now (to_entity u (f m) none)) _ s0 h' in
      let (_, w2, e2, r2) = bind-ok (commit b) _ w1 r1 in
      let (k, told, f1) = set_version-Returns (to_entity u (f m) none) s0 e1 in
      let f2 = commit-Returns b w1 e2 in
      let (_, f3) = pure-Returns (user_dto x) w2 r2 in
      record {
        row = m;
        redis = k;
        user_row = row;
        told = told;
        state = f3 ∙ f2 ∙ ap (λ (y : World). record y { committed = y.db }) f1;
      }

  pub change_user_role_steps-Returns :
      (role : UserRole) (w : World) {d : UserDto} {w' : World}
      → Returns (change_user_role_steps b now u role) w d w'
      → IsChanged b now u (set_role role) w w'
  unfolding change_user_role_steps
  change_user_role_steps-Returns role w {d} {w'} h =
      let (found, w1, e1, r1) = bind-ok (update_role b u role) _ w h in
      let (x, w2, e2, r2) = bind-ok (or_raise found user_not_found) _ w1 r1 in
      let (answer, f1) = update_role-Returns b w u role e1 in
      let (there, f2) = or_raise-Returns found user_not_found w1 e2 in
      announced (set_role role) w w2 x (sym answer ∙ there) (f2 ∙ f1) r2

  pub change_user_status_steps-Returns :
      (status : UserStatus) (w : World) {d : UserDto} {w' : World}
      → Returns (change_user_status_steps b now u status) w d w'
      → IsChanged b now u (set_status status) w w'
  unfolding change_user_status_steps
  change_user_status_steps-Returns status w h =
      let (found, w1, e1, r1) = bind-ok (update_status b u status) _ w h in
      let (x, w2, e2, r2) = bind-ok (or_raise found user_not_found) _ w1 r1 in
      let (answer, f1) = update_status-Returns b w u status e1 in
      let (there, f2) = or_raise-Returns found user_not_found w1 e2 in
      announced (set_status status) w w2 x (sym answer ∙ there) (f2 ∙ f1) r2

  pub request_account_deletion_steps-Returns :
      (w : World) {d : UserDto} {w' : World}
      → Returns (request_account_deletion_steps b now u) w d w'
      → IsChanged b now u (set_status deletion_requested) w w'
  unfolding request_account_deletion_steps
  request_account_deletion_steps-Returns w h =
      let (found, w1, e1, r1) = bind-ok (update_status b u deletion_requested) _ w h in
      let (x, w2, e2, r2) = bind-ok (updated_or_rollback found) _ w1 r1 in
      let (answer, f1) = update_status-Returns b w u deletion_requested e1 in
      let (there, f2) = updated-Returns found w1 e2 in
      announced (set_status deletion_requested) w w2 x (sym answer ∙ there) (f2 ∙ f1) r2

  pub approve_user_deletion_request_steps-Returns :
      (w : World) {d : UserDto} {w' : World}
      → Returns (approve_user_deletion_request_steps b now u) w d w'
      → IsApproved b now u w w'
  unfolding approve_user_deletion_request_steps to_entity
  approve_user_deletion_request_steps-Returns w {d} {w'} h =
      let revoke = Store.revoke_all_sessions b.redis now u in
      let (found, w1, e1, r1) = bind-ok (update_status b u deleted) _ w h in
      let (x, w2, e2, r2) = bind-ok (updated_or_rollback found) _ w1 r1 in
      let (_, w3, e3, r3) = bind-ok (revoke_all_active_for_user b u now) _ w2 r2 in
      let (_, w4, e4, r4) = bind-ok (set_version b now x) _ w3 r3 in
      let (_, w5, e5, r5) = bind-ok (on_redis revoke) _ w4 r4 in
      let (_, w6, e6, r6) = bind-ok (commit b) _ w5 r5 in
      let (answer, f1) = update_status-Returns b w u deleted e1 in
      let (there, f2) = updated-Returns found w1 e2 in
      let f3 = revoke_all_active_for_user-Returns b w2 u now e3 in
      let (k, told, f4) = set_version-Returns x w3 e4 in
      let (k', gone, f5) = on_redis-Returns revoke w4 e5 in
      let f6 = commit-Returns b w5 e6 in
      let (_, f7) = pure-Returns (user_dto x) w6 r6 in
      let (m, row, ex) = updated_row (set_status deleted) (w.db.users u) (sym answer ∙ there) in
      let db : Db = record (changed_db u (set_status deleted) w.db) {
        sessions = revoke_where (λ _ m. m.user_id == u) now w.db.sessions;
      } in
      let g3 : w3 ≡ record w { db = db } =
        f3
        ∙ ap
            (λ (y : World). record y {
              db = record (y.db) {
                sessions = revoke_where (λ _ m. m.user_id == u) now y.db.sessions;
              };
            })
            (f2 ∙ f1) in
      let g4 : w4 ≡ record w { db = db; redis = k } =
        f4 ∙ ap (λ (y : World). record y { redis = k }) g3 in
      let g5 : w5 ≡ record w { db = db; redis = k' } =
        f5 ∙ ap (λ (y : World). record y { redis = k' }) g4 in
      record {
        row = m;
        versioned = k;
        redis = k';
        user_row = row;
        told =
            subst
              (λ y.
                Returns (Store.set_authorization_version b.redis now y.id y.authorization_version)
                  w.redis tt k)
              ex
              (subst
                (λ (y : World).
                  Returns (Store.set_authorization_version b.redis now x.id x.authorization_version)
                    y.redis tt k)
                g3 told);
        revoked = subst (λ (y : World). Returns revoke y.redis tt k') g4 gone;
        state = f7 ∙ f6 ∙ ap (λ (y : World). record y { committed = y.db }) g5;
      }
