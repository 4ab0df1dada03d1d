-- ===== src/Users/Preferences/Stored.antt =====
-- What a look-up of preferences gives after they were created.
use base_backend.Prelude.{
  ◌≡◌, ◌∙◌, ap, sym, refl, true, not, Option, none, some, is_some, arith, ◌==◌, nat_eq,
  filter_option,
}
use base_backend.Errors.{
  Result, ok, ok-injective, forbidden, user_not_found, user_preferences_already_exists,
  user_preferences_not_found,
}
use base_backend.Exec.{raise_if, or_raise}
use base_backend.Exec.Inversion.{Returns, bind-ok, pure-Returns, on-Returns}
use base_backend.Redis.{Time, Uuid}
use base_backend.Sql.{select_one, insert_row}
use base_backend.Sql.Effects.{select_one-Returns, insert_row-Returns}
use base_backend.Authorization.{active, status_eq}
use base_backend.World.{UserPreferencesModel, World, Backend, on_preferences, commit}
use base_backend.World.Transactions.{transaction-Returns, commit-Returns}
use base_backend.Users.Repository.{get_by_id}
use base_backend.Users.Profiles.Completion.{or_raise-some}
use base_backend.Users.Preferences.{
  UserLanguage, en, ru, kk, UserTheme, system, light, dark, language_value, language_of,
  theme_value, theme_of, UserPreferences, UserPreferencesDto, preferences_dto, entity_with,
  preferences_entity, NewPreferences, new_preferences, some_result, optional_entity,
  get_preferences, create_preferences, create_user_preferences_steps, create_user_preferences,
  get_user_preferences,
}

language_of-value : (l : UserLanguage) → language_of (language_value l) ≡ ok l
language_of-value en = refl
language_of-value ru = refl
language_of-value kk = refl

theme_of-value : (t : UserTheme) → theme_of (theme_value t) ≡ ok t
theme_of-value system = refl
theme_of-value light = refl
theme_of-value dark = refl

-- The answer that has what was asked for.
abbrev pub asked : Uuid → NewPreferences → Time → UserPreferencesDto
asked u n now = record {
  user_id = u;
  language = n.language;
  theme = n.theme;
  push_notifications_enabled = n.push_notifications_enabled;
  email_notifications_enabled = n.email_notifications_enabled;
  marketing_notifications_enabled = n.marketing_notifications_enabled;
  created_at = now;
  updated_at = now;
}

-- The preferences that were asked for.
abbrev pub created : Uuid → NewPreferences → Time → UserPreferences
created u n now = record {
  user_id = u;
  language = n.language;
  theme = n.theme;
  push_notifications_enabled = n.push_notifications_enabled;
  email_notifications_enabled = n.email_notifications_enabled;
  marketing_notifications_enabled = n.marketing_notifications_enabled;
  created_at = now;
  updated_at = now;
}

entity_of_new :
    (u : Uuid) (n : NewPreferences) (now : Time)
    → preferences_entity u (new_preferences n now) ≡ ok (created u n now)
unfolding preferences_entity
entity_of_new u n now =
    ap (λ r. entity_with u (new_preferences n now) r (theme_of (theme_value n.theme)))
      (language_of-value n.language)
    ∙ ap (λ r. entity_with u (new_preferences n now) (ok n.language) r) (theme_of-value n.theme)

the_row :
    (o : Option UserPreferencesModel) → filter_option (λ (m : UserPreferencesModel). true) o ≡ o
the_row none = refl
the_row (some m) = refl

module _ (b : Backend) where
  get_preferences-Returns :
      (u : Uuid) (w : World) {r : Option UserPreferences} {w' : World}
      → Returns (get_preferences b u) w r w'
      → (w' ≡ w) × (optional_entity u (w.db.preferences u) ≡ ok r)
  unfolding get_preferences
  get_preferences-Returns u w h =
      let read = select_one b.preferences u (λ _. true) in
      let (row, w1, e1, h1) = bind-ok (on_preferences read) _ w h in
      let (t, f, g) =
        on-Returns (λ (x : World). x.db.preferences)
          (λ t (x : World). record x { db = record (x.db) { preferences = t } }) read w e1 in
      let (same, found) = select_one-Returns b.preferences w.db.preferences u (λ _. true) f in
      (
        sym (ap (λ (x : Result (Option UserPreferences) × World). x.1) h1)
            ∙ g
            ∙ ap (λ t. record w { db = record (w.db) { preferences = t } }) same,
        ap (optional_entity u) (sym (the_row (w.db.preferences u)) ∙ sym found)
            ∙ ap (λ (x : Result (Option UserPreferences) × World). x.0) h1,
      )

  create_preferences-Returns :
      (u : Uuid) (n : NewPreferences) (now : Time) (w : World) {p : UserPreferences} {w' : World}
      → Returns (create_preferences b u n now) w p w'
      → (w'.db.preferences u ≡ some (new_preferences n now)) × (p ≡ created u n now)
  unfolding create_preferences
  create_preferences-Returns u n now w {p} h =
      let write = insert_row b.preferences u (new_preferences n now) in
      let (_, w1, e1, h1) = bind-ok (on_preferences write) _ w h in
      let (t, f, g) =
        on-Returns (λ (x : World). x.db.preferences)
          (λ t (x : World). record x { db = record (x.db) { preferences = t } }) write w e1 in
      let (_, table) =
        insert_row-Returns b.preferences w.db.preferences u (new_preferences n now) f in
      let kept = sym (ap (λ (x : Result UserPreferences × World). x.1) h1) in
      (
        ap (λ (x : World). x.db.preferences u) (kept ∙ g)
            ∙ ap (λ t. t u) table
            ∙ ground (arith, nat_eq.equal_iff u u),
        ok-injective
            (sym (ap (λ (x : Result UserPreferences × World). x.0) h1) ∙ entity_of_new u n now),
      )

  create_steps-Returns :
      (u : Uuid) (n : NewPreferences) (now : Time) (w : World) {d : UserPreferencesDto} {w' : World}
      → Returns (create_user_preferences_steps b u n now) w d w'
      → (w'.db.preferences u ≡ some (new_preferences n now))
        × (w'.db ≡ w'.committed)
        × (d ≡ preferences_dto (created u n now))
  unfolding create_user_preferences_steps
  create_steps-Returns u n now w h =
      let (p, w1, e1, h1) = bind-ok (create_preferences b u n now) _ w h in
      let (_, w2, e2, h2) = bind-ok (commit b) _ w1 h1 in
      let (same, last) = pure-Returns (preferences_dto p) w2 h2 in
      let (stored, made) = create_preferences-Returns u n now w e1 in
      let left = last ∙ commit-Returns b w1 e2 in
      (
        ap (λ (x : World). x.db.preferences u) left ∙ stored,
        ap (λ (x : World). x.db) left ∙ sym (ap (λ (x : World). x.committed) left),
        sym same ∙ ap (λ (x : UserPreferences). preferences_dto x) made,
      )

  create-Returns :
      (u : Uuid) (n : NewPreferences) (now : Time) (w : World) {d : UserPreferencesDto} {w' : World}
      → Returns (create_user_preferences b u n now) w d w'
      → (w'.db.preferences u ≡ some (new_preferences n now))
        × (w'.db ≡ w'.committed)
        × (d ≡ preferences_dto (created u n now))
  unfolding create_user_preferences
  create-Returns u n now w h =
      let (found, w1, e1, h1) = bind-ok (get_by_id b u) _ w h in
      let (x, w2, e2, h2) = bind-ok (or_raise found user_not_found) _ w1 h1 in
      let (_, w3, e3, h3) = bind-ok (raise_if (not (x.status == active)) forbidden) _ w2 h2 in
      let (existing, w4, e4, h4) = bind-ok (get_preferences b u) _ w3 h3 in
      let (_, w5, e5, h5) =
        bind-ok (raise_if (is_some existing) user_preferences_already_exists) _ w4 h4 in
      create_steps-Returns u n now w5
        (transaction-Returns (create_user_preferences_steps b u n now) w5 h5)

  some_or : UserPreferences → Option UserPreferences → UserPreferences
  some_or d none = d
  some_or d (some p) = p

  get-Returns :
      (u : Uuid) (w : World) (m : UserPreferencesModel) (p : UserPreferences)
      {d : UserPreferencesDto} {w' : World}
      → w.db.preferences u ≡ some m
      → preferences_entity u m ≡ ok p
      → Returns (get_user_preferences b u) w d w'
      → (d ≡ preferences_dto p) × (w' ≡ w)
  unfolding get_user_preferences some_or
  get-Returns u w m p here is h =
      let (row, w1, e1, h1) = bind-ok (get_preferences b u) _ w h in
      let (q, w2, e2, h2) = bind-ok (or_raise row user_preferences_not_found) _ w1 h1 in
      let (same, last) = pure-Returns (preferences_dto q) w2 h2 in
      let (back, read) = get_preferences-Returns u w e1 in
      let (there, kept) = or_raise-some (λ _. true) b row user_preferences_not_found w1 e2 in
      let some_p : some p ≡ row =
        ok-injective (ap some_result (sym is) ∙ ap (optional_entity u) (sym here) ∙ read) in
      (
        sym same
            ∙ ap (λ (x : UserPreferences). preferences_dto x)
                (ap (some_or q) (sym (some_p ∙ there))),
        last ∙ kept ∙ back,
      )

  -- When preferences are created they are committed, and the answer has what was asked for. A look-up from
  -- then on that returns gives the same answer, and writes nothing.
  pub create_user_preferences-get :
      (u : Uuid) (n : NewPreferences) (now : Time) (w : World) {d d' : UserPreferencesDto}
      {w' w'' : World}
      → Returns (create_user_preferences b u n now) w d w'
      → Returns (get_user_preferences b u) w' d' w''
      → (w'.db ≡ w'.committed) × (d ≡ asked u n now) × (d' ≡ d) × (w'' ≡ w')
  unfolding preferences_dto
  create_user_preferences-get u n now w {w' = w'} h k =
      let (stored, committed, is) = create-Returns u n now w h in
      let (again, same) =
        get-Returns u w' (new_preferences n now) (created u n now) stored (entity_of_new u n now)
          k in
      (committed, is, again ∙ sym is, same)
