-- ===== src/Authorization.antt =====
-- app/common/authorization/enums.py and entities.py: roles, statuses, the principal of a request and
-- what the access state store knows of a user and a session.
pub mod Store
use base_backend.Prelude.{ℕ, String, Bool, true, false, Option, ◌≡◌, ◌↔◌, refl, Equality}
use base_backend.Redis.{Uuid}

pub data UserRole : Type 0 where
  super_admin admin user : UserRole

pub data UserStatus : Type 0 where
  active blocked deletion_requested deleted : UserStatus

abbrev role_beq : UserRole → UserRole → Bool
role_beq super_admin super_admin = true
role_beq admin admin = true
role_beq user user = true
role_beq _ _ = false

pub role_beq_iff : (a b : UserRole) → (role_beq a b ≡ true) ↔ (a ≡ b)
role_beq_iff super_admin super_admin = (λ h. refl, λ h. refl)
role_beq_iff admin admin = (λ h. refl, λ h. refl)
role_beq_iff user user = (λ h. refl, λ h. refl)
role_beq_iff _ _ = (λ h. cc, λ h. cc)

instance abbrev pub role_eq : Equality UserRole
role_eq = record { equal = role_beq; equal_iff = role_beq_iff }

abbrev status_beq : UserStatus → UserStatus → Bool
status_beq active active = true
status_beq blocked blocked = true
status_beq deletion_requested deletion_requested = true
status_beq deleted deleted = true
status_beq _ _ = false

pub status_beq_iff : (a b : UserStatus) → (status_beq a b ≡ true) ↔ (a ≡ b)
status_beq_iff active active = (λ h. refl, λ h. refl)
status_beq_iff blocked blocked = (λ h. refl, λ h. refl)
status_beq_iff deletion_requested deletion_requested = (λ h. refl, λ h. refl)
status_beq_iff deleted deleted = (λ h. refl, λ h. refl)
status_beq_iff _ _ = (λ h. cc, λ h. cc)

instance abbrev pub status_eq : Equality UserStatus
status_eq = record { equal = status_beq; equal_iff = status_beq_iff }

pub record CurrentPrincipal : Type 0 where
  pub user_id : Uuid
  pub session_id : Uuid
  pub role : UserRole
  pub authorization_version : ℕ

pub record CachedAccessState : Type 0 where
  pub authorization_version : Option ℕ
  pub session_active : Option Bool
