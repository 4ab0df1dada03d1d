-- ===== src/Tests/Store.antt =====
-- The access state store and the pages on concrete values.
use base_backend.Prelude.{ℕ, ◌<◌, ◌≡◌, ◌≢◌, ◌↔◌, refl, true, some, nat_eq, arith}
use base_backend.Exec.Inversion.{Returns}
use base_backend.Redis.{uuid, session, string_at, Keyspace, run, runs}
use base_backend.Redis.Server.{server}
use base_backend.Authorization.Store
use base_backend.Authorization.Store.{cache_call, revoke_all_call, perform}
use base_backend.Authorization.Store.Index.{
  IsIndexed, perform-IsIndexed, revoke_all_sessions-revokes,
}
use base_backend.Authorization.Store.Versions.{HasVersion, perform-HasVersion}
use base_backend.World.Transactions.{IsAtomic}
use base_backend.Auth.Sessions.{revoke_token, revoke_all_tokens, logout_user}
use base_backend.Auth.Sessions.Atomic.{ending_sessions-IsAtomic}
use base_backend.Pagination.{asc, BaseListRequest, pagination_offset, build_pagination_meta}
use base_backend.Pagination.Pages.{has_next_iff}
use base_backend.Tests.Fixtures.{backend, signed_in, cached, at}
use base_backend.Tests.Sessions.{cached-IsIndexed}

abbrev refilled : Keyspace
refilled = (perform server (at 1_500) (cache_call 1 2 24 (at 9_000)) cached).1

cache_returns :
    Returns (perform server (at 1_500) (cache_call 1 2 24 (at 9_000))) cached tt refilled
unfolding Store.cache Store.set_authorization_version_if_greater Store.write run runs
cache_returns = refl

perform-HasVersion_example : HasVersion 1 3 refilled
perform-HasVersion_example =
    perform-HasVersion (at 1_500) 1 3 server (cache_call 1 2 24 (at 9_000)) cached (omega arith)
      cache_returns

perform-IsIndexed_example : IsIndexed (at 1_500) refilled
perform-IsIndexed_example =
    perform-IsIndexed server (at 1_500) (cache_call 1 2 24 (at 9_000)) cached (omega arith)
      (cached-IsIndexed 1_500) cache_returns

abbrev emptied : Keyspace
emptied = (Store.revoke_all_sessions server (at 1_500) 1 cached).1

revoke_all_returns : Returns (Store.revoke_all_sessions server (at 1_500) 1) cached tt emptied
unfolding Store.revoke_all_sessions Store.write run runs
revoke_all_returns = refl

revoke_all_sessions-revokes_example : string_at (at 1_500) emptied (session 21) ≢ some (uuid 1)
revoke_all_sessions-revokes_example =
    revoke_all_sessions-revokes server (at 1_500) 1 cached (cached-IsIndexed 1_500)
      revoke_all_returns 21

ending_sessions-IsAtomic_example :
    IsAtomic signed_in.committed (revoke_token backend (at 1_500) 1 22 signed_in)
    × IsAtomic signed_in.committed (revoke_all_tokens backend (at 1_500) 1 signed_in)
    × IsAtomic signed_in.committed (logout_user backend (at 1_500) 1 22 signed_in)
ending_sessions-IsAtomic_example = ending_sessions-IsAtomic backend (at 1_500) signed_in 1 22

abbrev page : ℕ → BaseListRequest
page n = record { page_number = n; limit = 20; sorting_method = asc; sort_key = "created_at" }

has_next_iff_example :
    let meta = build_pagination_meta 2 20 41 in
    ((meta.has_next ≡ true) ↔ (pagination_offset (page 3) < 41))
    × ((meta.has_previous ≡ true) ↔ (1 < 2))
has_next_iff_example = has_next_iff (page 2) (page 3) 41 (omega arith) (omega arith) refl refl
