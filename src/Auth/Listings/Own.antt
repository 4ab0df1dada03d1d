-- ===== src/Auth/Listings/Own.antt =====
-- Whose sessions a listing shows, and how many.
use base_backend.Prelude.{
  ◌≡◌, ◌∙◌, ap, sym, subst, refl, arith, Bool, true, false, ◌&&◌, Option, none, some, is_some,
  is_none, List, [], ◌∷◌, map, ◌==◌, map_option, nat_eq,
}
use base_backend.Errors.{Result, ok, err}
use base_backend.Exec.{lift, on}
use base_backend.Exec.Inversion.{Returns, bind-ok, pure-Returns, on-Returns}
use base_backend.Redis.{Time, Uuid}
use base_backend.Sql.{Table}
use base_backend.World.{UserDeviceModel, UserSessionModel, World}
use base_backend.Auth.{UserSession}
use base_backend.Auth.Repository.{device_entity, session_entity}
use base_backend.Pagination.{BaseListRequest, pagination_offset, build_pagination_meta}
use base_backend.Pagination.Listing.{
  Covers, Listing, IsPage, IsPage-iff, apply_sorting, apply_sorting-Returns, count_rows,
  select_page, listed-IsPage,
}
use base_backend.Auth.Listings.{
  SessionRow, with_device, SessionColumn, session_sort_columns, SessionDto, SessionsPageDto,
  cons_ok, session_dto, session_dtos, activity, session_conditions, count_sessions_for_user,
  session_from_row, list_sessions_for_user, get_sessions,
}

-- The rows of the sessions, each with its device if that is there.
abbrev pub sessions_with_devices : World → Table SessionRow
sessions_with_devices w k = map_option (λ m. (m, w.db.devices m.user_device_id)) (w.db.sessions k)

-- What is asked of the time at which a session was revoked: nothing, that there is none, or that there is one.
abbrev pub IsAsked : Option Bool → Option Time → Type 0
IsAsked none revoked_at = Unit
IsAsked (some true) revoked_at = revoked_at ≡ none
IsAsked (some false) revoked_at = (at : Time) × (revoked_at ≡ some at)

-- A session as it is shown, with its device.
abbrev pub shown_session : Uuid → UserSessionModel → UserDeviceModel → SessionDto
shown_session k m x = record {
  id = k;
  user_id = m.user_id;
  refresh_token_hash = m.refresh_token_hash;
  device = record {
    id = m.user_device_id;
    client_device_id = x.client_device_id;
    os = x.os;
    os_version = x.os_version;
    model = x.model;
    app_version = x.app_version;
    push_provider = x.push_provider;
    has_notification_token = is_some x.push_token;
  };
  created_at = m.created_at;
  expires_at = m.expires_at;
  last_active = m.last_active_at;
  revoked_at = m.revoked_at;
  is_revoked = is_some m.revoked_at;
}

-- Each row has its device, and is shown with it.
abbrev pub Shows : List (Uuid × SessionRow) → List SessionDto → Type 0
Shows [] [] = Unit
Shows [] (d ∷ ds) = ⊥
Shows (row ∷ rows) [] = ⊥
Shows ((k, (m, device)) ∷ rows) (d ∷ ds) =
    ((x : UserDeviceModel) × (device ≡ some x) × (d ≡ shown_session k m x)) × Shows rows ds

module _ (sql : Listing SessionColumn SessionRow) (w : World) (u : Uuid)
    (is_active : Option Bool) where
  -- A session of the user, with the activity that is asked for.
  abbrev pub IsOwn : Uuid → SessionRow → Type 0
  IsOwn k (m, device) = (m.user_id ≡ u) × IsAsked is_active m.revoked_at

  activity_iff :
      (q : Option Bool) (m : UserSessionModel)
      → (activity q m ≡ true → IsAsked q m.revoked_at)
        × (IsAsked q m.revoked_at → activity q m ≡ true)
  activity_iff none m = (λ h. tt, λ h. refl)
  activity_iff (some true) m = (is_none_there m.revoked_at, λ e. ground arith)
    where
      is_none_there : (o : Option Time) → is_none o ≡ true → o ≡ none
      is_none_there none h = refl
      is_none_there (some t) h = absurd (cc)
  activity_iff (some false) m = (is_some_there m.revoked_at, λ (t, e). ground arith)
    where
      is_some_there : (o : Option Time) → is_some o ≡ true → (at : Time) × (o ≡ some at)
      is_some_there none h = absurd (cc)
      is_some_there (some t) h = (t, refl)

  IsOwn_iff :
      (k : Uuid) (r : SessionRow)
      → (session_conditions u is_active k r ≡ true → IsOwn k r)
        × (IsOwn k r → session_conditions u is_active k r ≡ true)
  IsOwn_iff k (m, device) =
      let (there, back) = activity_iff is_active m in
      (
        λ h.
            let (mine, active) = both (m.user_id == u) (activity is_active m) h in
            ((nat_eq.equal_iff m.user_id u).0 mine, there active),
        λ (mine, asked). ground (arith, (nat_eq.equal_iff m.user_id u).1 mine, back asked),
      )
    where
      both : (a b : Bool) → (a && b) ≡ true → (a ≡ true) × (b ≡ true)
      both true b h = (refl, h)
      both false b h = absurd (cc)

  dto_of_row :
      (k : Uuid) (m : UserSessionModel) (device : Option UserDeviceModel) {d : SessionDto}
      → session_dto (session_from_row sql (k, (m, device))) ≡ ok d
      → (x : UserDeviceModel) × (device ≡ some x) × (d ≡ shown_session k m x)
  unfolding session_entity device_entity
  dto_of_row k m none h = absurd (cc)
  dto_of_row k m (some x) h = (x, refl, ground arith)

  or_empty : Result (List SessionDto) → List SessionDto
  or_empty (ok ds) = ds
  or_empty (err e) = []

  cons_ok-inv :
      (r : Result SessionDto) (rs : Result (List SessionDto)) {ds : List SessionDto}
      → cons_ok r rs ≡ ok ds
      → (x : SessionDto) × (xs : List SessionDto) × (r ≡ ok x) × (rs ≡ ok xs) × (x ∷ xs ≡ ds)
  unfolding or_empty
  cons_ok-inv (err e) rs h = absurd (cc)
  cons_ok-inv (ok x) (err e) h = absurd (cc)
  cons_ok-inv (ok x) (ok xs) h = (x, xs, refl, refl, ap or_empty h)

  Shows-session_dtos :
      (rows : List (Uuid × SessionRow)) (ds : List SessionDto)
      → session_dtos (map (session_from_row sql) rows) ≡ ok ds
      → Shows rows ds
  unfolding session_dtos or_empty
  Shows-session_dtos [] ds e = subst (λ (x : List SessionDto). Shows [] x) (ap or_empty e) tt
  Shows-session_dtos ((k, (m, device)) ∷ rows) ds e =
      let (x, xs, first, rest, same) =
        cons_ok-inv (session_dto (session_from_row sql (k, (m, device))))
          (session_dtos (map (session_from_row sql) rows)) e in
      subst (λ (y : List SessionDto). Shows ((k, (m, device)) ∷ rows) y) same
        (dto_of_row k m device first, Shows-session_dtos rows xs rest)

  pub record IsSessionsPage (request : BaseListRequest) (d : SessionsPageDto) (w' : World)
      : Type 0 where
    pub rows : List (Uuid × SessionRow)
    pub page :
        IsPage sql session_sort_columns IsOwn (sessions_with_devices w) request rows d.pagination
    pub items : Shows rows d.items
    pub unchanged : w' ≡ w

  -- A listing of sessions shows those of the user, active ones or revoked ones if the request asks for these.
  -- They are put in the order of the column of the sort key; the page is cut from them at its offset and has
  -- at most the rows of its limit, and the total that its meta data tells is the number of all of them. Each is
  -- shown with the fields of its row and of its device, and nothing is written. The keys of `sql` are those
  -- of the sessions.
  pub get_sessions-Returns :
      (request : BaseListRequest) {d : SessionsPageDto} {w' : World}
      → Covers sql.keys (sessions_with_devices w)
      → Returns (get_sessions sql u request is_active) w d w'
      → IsSessionsPage request d w'
  unfolding get_sessions list_sessions_for_user count_sessions_for_user
  get_sessions-Returns request {d} {w'} covers h =
      let p = session_conditions u is_active in
      let rows_of = λ (x : World). with_device x.db in
      let count = on rows_of (λ t (x : World). x) (count_rows sql p) in
      let list =
        list_sessions_for_user sql u (pagination_offset request) request.limit is_active
          request.sort_key request.sorting_method in
      let (total, w1, e1, r1) = bind-ok count _ w h in
      let (sessions, w2, e2, r2) = bind-ok list _ w1 r1 in
      let (items, w3, e3, r3) = bind-ok (lift (session_dtos sessions)) _ w2 r2 in
      let (_, counted, g1) = on-Returns rows_of (λ t (x : World). x) (count_rows sql p) w e1 in
      let (c, v1, f1, q1) =
        bind-ok (apply_sorting session_sort_columns request.sort_key) _ w
          (subst (λ y. Returns list y sessions w2) g1 e2) in
      let select =
        select_page sql p c request.sorting_method (pagination_offset request) request.limit in
      let (column, k1) = apply_sorting-Returns session_sort_columns request.sort_key w f1 in
      let (rows, v2, f2, q2) = bind-ok (on rows_of (λ t (x : World). x) select) _ v1 q1 in
      let (_, selected, k2) =
        on-Returns rows_of (λ t (x : World). x) select w
          (subst (λ y. Returns (on rows_of (λ t (x : World). x) select) y rows v2) k1 f2) in
      let (from_rows, k3) = pure-Returns (map (session_from_row sql) rows) v2 q2 in
      let listed =
        listed-IsPage sql session_sort_columns p (with_device w.db) request covers column counted
          selected in
      let page : SessionsPageDto = record {
        items = items;
        pagination = build_pagination_meta request.page_number request.limit total;
      } in
      let (e4, g4) = pure-Returns page w3 r3 in
      let g3 = sym (ap (λ (x : Result (List SessionDto) × World). x.1) e3) in
      subst (λ x. IsSessionsPage request x w') e4
        (record {
          rows = rows;
          page =
              IsPage-iff sql session_sort_columns (λ k r. p k r ≡ true) IsOwn
                (sessions_with_devices w) request (λ k r _. IsOwn_iff k r) listed;
          items = Shows-session_dtos rows items (
              ap (λ (x : List UserSession). session_dtos x) from_rows
              ∙ ap (λ (x : Result (List SessionDto) × World). x.0) e3);
          unchanged = g4 ∙ g3 ∙ k3 ∙ k2;
        })
