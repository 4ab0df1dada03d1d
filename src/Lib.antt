-- ===== src/Lib.antt =====
--
-- Verification of the backend: access tokens, refresh tokens, sessions, log-ins, the administration and
-- listing of users, and the policies on what is released.
--
-- The program is a FastAPI service. A request carries an access token (a JWT that names a user, a
-- session, a role and an authorization version), which `ValidateAccessTokenUseCase` checks against
-- the access state in Redis and, where that knows nothing, against PostgreSQL. A refresh token names
-- one session and is exchanged once for a new session. The use cases that end sessions or change a
-- user write the database, tell the access state, and commit.
--
-- Which file models which part:
--   Prelude, Errors, Exec      helpers; the exceptions; a coroutine that may raise, as a state-passing
--                              action that returns a `Result` and the state that it left
--   Redis (Values, SortedSets, Commands, Server)
--                              what the program uses of Redis, as a parameter with documented effects
--   Sql                        what it uses of SQLAlchemy and PostgreSQL, in the same way
--   World                      the state of a request: rows as its transaction sees them, rows as
--                              committed, and Redis; app/core/database.py; the models in
--                              app/modules/*/infrastructure/sqlalchemy_models.py
--   Authorization, Authorization/Store
--                              app/common/authorization: `RedisAccessStateStore`
--   Users, Users/Repository    app/modules/users/infrastructure/sqlalchemy_repositories.py, on users
--   Users/Profiles             the same file, on profiles; create_user_profile.py and
--                              update_user_profile.py of app/modules/users/application/use_cases
--   Users/Preferences          the same file, on preferences; create_user_preferences.py,
--                              update_user_preferences.py and get_user_preferences.py
--   Handlers, Handlers/Bodies  app/common/exceptions and app/common/responses: the codes of the exceptions, the
--                              status codes, and the answers of the handlers
--   Administration             app/modules/users/application/use_cases: change_user_role,
--                              change_user_status, request_account_deletion,
--                              approve_user_deletion_request, _permissions
--   Administration/Writes      every use case of app/modules/users that writes
--   Administration/Bootstrap, Administration/Lookups
--                              bootstrap_super_admin, get_user_by_id, get_user_profile_by_id,
--                              get_current_user and get_current_user_profile, beside them
--   Users/Avatars              update_user_avatar and remove_user_avatar, beside them; the storage of
--                              the files is an argument
--   Auth, Auth/Repository      app/modules/auth/infrastructure/sqlalchemy_repositories.py
--   Auth/Tokens                app/modules/auth/infrastructure/jwt_token_service.py
--   Auth/ValidateAccessToken, Auth/RefreshToken, Auth/Sessions
--                              the use cases of the same names in
--                              app/modules/auth/application/use_cases
--   Auth/SignedOut, Auth/Race  the use cases of Auth/Sessions followed by a validation, and a log-out
--                              that interleaves with one
--   Auth/LoginRequests         app/modules/auth/infrastructure/redis_login_request_store.py
--   Auth/VerifyEmail           app/modules/auth/application/use_cases/verify_email.py
--   Auth/LoginUser             app/modules/auth/application/use_cases/login_user.py, and the sending of
--                              a code in app/modules/auth/infrastructure/email_otp_provider.py
--   Pagination, Pagination/Listing
--                              app/common/pagination, and the listing statements
--   Users/Listings             get_users, and the statements that it uses
--   Auth/Listings              get_sessions, and the statements that it uses
--   Ci                         tool/ci: Ci/Images is ecr_image_policy.py, Ci/Deploy deploy_policy.py and Ci/Exceptions
--                              security_exceptions.py, on JSON documents (Ci/Json), regular expressions
--                              (Ci/Patterns) and code that may raise (Ci/Results)
--   Tests                      a concrete backend, runs on it, and the theorems applied to them
--
-- How the state and the operations correspond: an `async def` is a function into `Exec World`; every
-- `await` is one step of it, in the order of the source; `raise` is `raise`; the block
-- `try ... except Exception: rollback; raise` is `transaction`. In `RefreshTokenUseCase` an error that is
-- raised after a commit is the value `raised_after_commit` of the body, since its handler does not roll
-- back. Any statement and any call of Redis may fail; a failed statement leaves its table as it was,
-- and nothing is assumed of what a failed call leaves in Redis.
--
-- Choices: a `datetime` is a number of microseconds since the epoch, read where the source reads the
-- clock and passed in as an argument; a UUID is its number; a text in Redis or in a claim is a number,
-- a UUID or another text. The quotient in `pagination_total_pages` is exact, where the source divides
-- floating point numbers, which agree below 2 ^ 53. No definition runs on fuel: the program's loops are
-- over lists, or count attempts down, and are structural recursion here.
--
-- Not modelled: the storage of avatars, localization, an HTTP exception whose detail is no text, the HTTP
-- routes and their wiring, the policy on Compose files and the command lines of the others, and the deployment
-- scripts. In the log-in, a code that is not ASCII is compared like any other, where
-- `secrets.compare_digest` raises. Requests are modelled one after the other,
-- but for the interleaving of Auth/Race.
pub mod Prelude
pub mod Errors
pub mod Exec
pub mod Handlers
pub mod Authorization
pub mod Redis
pub mod Sql
pub mod World
pub mod Users
pub mod Administration
pub mod Auth
pub mod Pagination
pub mod Ci
pub mod Tests
