-- ===== src/Auth/LoginUser/Failures.antt =====
-- The parts of `LoginUserUseCase.execute` that raise only failures of the database and of Redis.
use base_backend.Prelude.{
  ◌≡◌, inl, inr, arith, String, false, Option, none, some, List, [], ◌∷◌, Bool-cases, Option-cases,
  nat_eq, string_eq,
}
use base_backend.Errors.{Error, is_failure}
use base_backend.Exec.{Exec}
use base_backend.Exec.NeverRaises.{NeverRaises, pure-NeverRaises, bind-NeverRaises, on-NeverRaises}
use base_backend.Redis.{Time, Uuid}
use base_backend.Sql.Upsert.{Upsert, upsert_row}
use base_backend.World.{UserDeviceModel, Backend, rollback}
use base_backend.Users.Repository.Creation.{get_or_create-NeverRaises}
use base_backend.Auth.{DeviceInfo}
use base_backend.Auth.Repository.{new_device, seen_device, same_device, upsert_user_device}
use base_backend.Auth.LoginRequests.{Requests, LoginRequest, LoginRedis}
use base_backend.Auth.LoginRequests.Pending.{
  LoginKeys, LoginCommand, LoginPipeline, exec_pipe, read_members, delete_all, forget_pending,
  on_requests, delete_pending_logins, create_login_request, delete_login_request,
}
use base_backend.Auth.VerifyEmail.{LoginState}
use base_backend.Auth.VerifyEmail.Failures.{on_world-NeverRaises, get_login_request-NeverRaises}
use base_backend.Auth.LoginUser.{Login, on_keys, prepare, clean_up}
use base_backend.Auth.LoginUser.Steps.{keys_of}

module _ (redis : LoginRedis) (pipe : LoginPipeline) (now : Time) (e : Error)
    (own : is_failure e ≡ false) where
  pub exec_pipe-NeverRaises : (cs : List LoginCommand) → NeverRaises e (exec_pipe redis pipe now cs)
  unfolding exec_pipe
  exec_pipe-NeverRaises cs = record {
    at = λ s u h. elim (Bool-cases (pipe.exec now cs s).0) [ inl f ↦ cc | inr f ↦ ground arith ];
  }

  pub read_members-NeverRaises : (u d : Uuid) → NeverRaises e (read_members redis pipe now u d)
  unfolding read_members
  read_members-NeverRaises u d = record {
    at = λ s t h. elim (Option-cases (pipe.smembers now u d s)) [
      | inl f ↦ ground arith
      | inr (ids, f) ↦ cc
    ];
  }

  pub delete_all-NeverRaises : (ids : List String) → NeverRaises e (delete_all redis pipe now ids)
  unfolding delete_all
  delete_all-NeverRaises [] = pure-NeverRaises e tt
  delete_all-NeverRaises (id ∷ ids) = exec_pipe-NeverRaises _

  pub delete_pending_logins-NeverRaises :
      (u d : Uuid) → NeverRaises e (delete_pending_logins redis pipe now u d)
  unfolding delete_pending_logins
  delete_pending_logins-NeverRaises u d =
      search
        (bind-NeverRaises, read_members-NeverRaises, delete_all-NeverRaises, exec_pipe-NeverRaises)

  pub create_login_request-NeverRaises :
      (id : String) (r : LoginRequest) → NeverRaises e (create_login_request redis pipe now id r)
  unfolding create_login_request
  create_login_request-NeverRaises id r = exec_pipe-NeverRaises _

  pub forget_pending-NeverRaises :
      (id : String) (o : Option LoginRequest) → NeverRaises e (forget_pending redis pipe now id o)
  unfolding forget_pending
  forget_pending-NeverRaises id none = pure-NeverRaises e tt
  forget_pending-NeverRaises id (some r) = exec_pipe-NeverRaises _

  pub on_requests-NeverRaises :
      {A : Type 0} (m : Exec Requests A) → NeverRaises e m → NeverRaises e (on_requests m)
  on_requests-NeverRaises m k =
      on-NeverRaises e (λ (x : LoginKeys). x.requests)
        (λ r (x : LoginKeys). record x { requests = r }) m k

  pub delete_login_request-NeverRaises :
      (id : String) → NeverRaises e (delete_login_request redis pipe now id)
  unfolding delete_login_request
  delete_login_request-NeverRaises id =
      search
        (
          bind-NeverRaises,
          on_requests-NeverRaises,
          get_login_request-NeverRaises e own,
          exec_pipe-NeverRaises,
          forget_pending-NeverRaises,
        )
        depth 8

pub rollback-NeverRaises : (e : Error) → NeverRaises e rollback
unfolding rollback
rollback-NeverRaises e = record { at = λ s u h. cc }

module _ (b : Backend) (devices : Upsert UserDeviceModel) (redis : LoginRedis)
    (pipe : LoginPipeline) (c : Login) (e : Error) (own : is_failure e ≡ false) where
  pub on_keys-NeverRaises :
      {A : Type 0} (m : Exec LoginKeys A) → NeverRaises e m → NeverRaises e (on_keys m)
  on_keys-NeverRaises m k =
      on-NeverRaises e keys_of
        (λ x (s : LoginState). record s { logins = x.requests; pending = x.pending }) m k

  pub upsert-NeverRaises :
      (id u : Uuid) (d : DeviceInfo) (now : Time)
      → NeverRaises e (upsert_user_device devices id u d now)
  unfolding upsert_user_device upsert_row
  upsert-NeverRaises id u d now = record {
    at = λ s t h.
        elim (Option-cases (
          devices.upsert (same_device u d) id (new_device u d now) (seen_device d now)
            s.db.devices)) [ inl f ↦ ground arith | inr (ids, f) ↦ ground arith ];
  }

  pub prepare-NeverRaises :
      (email : String) (device : DeviceInfo)
      → NeverRaises e (prepare b devices redis pipe c email device)
  unfolding prepare
  prepare-NeverRaises email device =
      search
        (
          bind-NeverRaises,
          pure-NeverRaises,
          on_world-NeverRaises e own,
          on_keys-NeverRaises,
          get_or_create-NeverRaises b e own,
          upsert-NeverRaises,
          delete_pending_logins-NeverRaises redis pipe c.delete_now e own,
        )
        depth 8

  pub clean_up-NeverRaises : NeverRaises e (clean_up b devices redis pipe c)
  unfolding clean_up
  clean_up-NeverRaises =
      search
        (
          bind-NeverRaises,
          on_keys-NeverRaises,
          delete_login_request-NeverRaises redis pipe c.cleanup_now e own,
          on_world-NeverRaises e own,
          rollback-NeverRaises,
        )
        depth 8
