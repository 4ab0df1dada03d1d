-- ===== src/Tests.antt =====
-- Concrete backends, states and calls, and the theorems applied to them.
pub mod Database
pub mod Fixtures
pub mod Store
pub mod Sessions
pub mod Access
pub mod Refresh
pub mod Login
pub mod LoginUser
pub mod Profiles
pub mod Administration
pub mod Lookups
pub mod Preferences
pub mod Listings
pub mod Release
pub mod Policies
