-- ===== src/Users/Preferences/Changes.antt =====
-- What the use cases on preferences leave.
use base_backend.Prelude.{
  inl, inr, refl, true, Option, none, some, arith, Option-cases, nat_eq, string_eq,
}
use base_backend.Redis.{Time, Uuid}
use base_backend.Sql.{select_one}
use base_backend.World.{UserPreferencesModel, Backend, rollback}
use base_backend.World.Transactions.{KeepsCommitted, CommitsLast, transaction_rules}
use base_backend.Users.Requests.{
  IsAtomicRequest, IsReading, or_raise-IsReading, raise_if-IsReading, transaction-IsAtomicRequest,
  bind-IsAtomicRequest, get_by_id-IsReading,
}
use base_backend.Users.Preferences.{
  UserPreferences, NewPreferences, PreferencesChange, get_preferences, create_preferences,
  flush_preferences, update_preferences, create_user_preferences_steps, create_user_preferences,
  there_or_rollback, update_user_preferences_steps, update_user_preferences,
}

module _ (b : Backend) where
  pub get_preferences-IsReading : (u : Uuid) → IsReading (get_preferences b u)
  unfolding get_preferences select_one
  get_preferences-IsReading u = record {
    at = λ w. elim (Option-cases (b.preferences.select u (λ _. true) w.db.preferences)) [
      | inl failed ↦ ground arith
      | inr (r, e) ↦ ground arith
    ];
  }

  create_preferences-KeepsCommitted :
      (u : Uuid) (n : NewPreferences) (now : Time) → KeepsCommitted (create_preferences b u n now)
  unfolding create_preferences
  create_preferences-KeepsCommitted u n now = search transaction_rules

  flush_preferences-KeepsCommitted :
      (u : Uuid) (f : UserPreferencesModel → UserPreferencesModel)
      (row : Option UserPreferencesModel)
      → KeepsCommitted (flush_preferences b u f row)
  unfolding flush_preferences
  flush_preferences-KeepsCommitted u f none = search transaction_rules
  flush_preferences-KeepsCommitted u f (some m) = search transaction_rules

  update_preferences-KeepsCommitted :
      (u : Uuid) (c : PreferencesChange) (now : Time)
      → KeepsCommitted (update_preferences b u c now)
  unfolding update_preferences
  update_preferences-KeepsCommitted u c now =
      search (transaction_rules, flush_preferences-KeepsCommitted)

  there_or_rollback-KeepsCommitted :
      (row : Option UserPreferences) → KeepsCommitted (there_or_rollback b row)
  unfolding there_or_rollback rollback
  there_or_rollback-KeepsCommitted none = record { at = λ w. refl }
  there_or_rollback-KeepsCommitted (some p) = record { at = λ w. refl }

  create_steps-CommitsLast :
      (u : Uuid) (n : NewPreferences) (now : Time)
      → CommitsLast (create_user_preferences_steps b u n now)
  unfolding create_user_preferences_steps
  create_steps-CommitsLast u n now =
      search (transaction_rules, create_preferences-KeepsCommitted) depth 8

  update_steps-CommitsLast :
      (u : Uuid) (c : PreferencesChange) (now : Time)
      → CommitsLast (update_user_preferences_steps b u c now)
  unfolding update_user_preferences_steps
  update_steps-CommitsLast u c now =
      search
        (transaction_rules, update_preferences-KeepsCommitted, there_or_rollback-KeepsCommitted)
        depth 8

  ruleset request_rules = (
    transaction-IsAtomicRequest, bind-IsAtomicRequest, or_raise-IsReading, raise_if-IsReading,
    get_by_id-IsReading, get_preferences-IsReading, create_steps-CommitsLast,
    update_steps-CommitsLast,
  )

  pub create_user_preferences-IsAtomicRequest :
      (u : Uuid) (n : NewPreferences) (now : Time)
      → IsAtomicRequest (create_user_preferences b u n now)
  unfolding create_user_preferences
  create_user_preferences-IsAtomicRequest u n now = search request_rules depth 14

  pub update_user_preferences-IsAtomicRequest :
      (u : Uuid) (c : PreferencesChange) (now : Time)
      → IsAtomicRequest (update_user_preferences b u c now)
  unfolding update_user_preferences
  update_user_preferences-IsAtomicRequest u c now = search request_rules depth 14
