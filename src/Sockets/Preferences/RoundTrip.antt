-- ===== src/Sockets/Preferences/RoundTrip.antt =====
-- Filters that are set and read back through src/websocket_filter_manager.cpp.
use rclabs_api.Prelude.{
  ◌≡◌, refl, sym, ◌∙◌, ap, String, str_eq, eq_iff, Bool, true, false, not, some, [], ◌∷◌, Dict,
  lookup, contains, string_eq, Bool-cases, inl, inr, arith, if◌then◌else◌,
}
use rclabs_api.Monitoring.Filters.{ConnectionFilters, is_valid}
use rclabs_api.Sockets.Connection.{Connection, set_filters, change_filters}
use rclabs_api.Sockets.Table.{ids_of, get_connection_ids}
use rclabs_api.Sockets.Manager.{
  WebSocketManager, connection_ids, filters_of, set_connection_filters,
}
use rclabs_api.Sockets.Preferences.{
  FilterManager, validate_connection_exists, save_connection_preferences, set_and_save,
}
use rclabs_api.Sockets.Preferences.Handlers.{
  filters_found, ok, parsed, if_valid, set_parsed, handle_get_connection_filters,
  handle_set_connection_filters,
}
use rclabs_api.Sockets.Preferences.Changes.{open_of, open_in, open_in-changed, filters_of-changed}

ids_of-open :
    (id : String) (d : Dict Connection)
    → open_of (lookup id d) ≡ true
    → contains (ids_of (λ c. c.is_open) d) id ≡ true
unfolding ids_of lookup
ids_of-open id [] h = absurd (ground (arith, h))
ids_of-open id ((j, c) ∷ rest) h = elim (Bool-cases (str_eq j id)) [
  | inl same ↦ ground (arith, same, h)
  | inr differ ↦ ground (arith, differ, h, ids_of-open id rest (later differ))
]
  where
    later : str_eq j id ≡ false → open_of (lookup id rest) ≡ true
    later differ =
        sym (ap (λ (b : Bool). open_of (if b then some c else lookup id rest)) differ) ∙ h

exists-open :
    (f : FilterManager) (id : String)
    → open_in f.manager id ≡ true
    → validate_connection_exists f id ≡ true
unfolding validate_connection_exists connection_ids get_connection_ids open_in
exists-open f id h = elim (Bool-cases f.manager.running) [
  | inl on ↦ rw on (
      ids_of-open id f.manager.hub.table.connections (
        sym (
          ap
            (λ (r : Bool).
              if not r then false else open_of (lookup id f.manager.hub.table.connections))
            on)
        ∙ h))
  | inr off ↦ absurd (ground (arith, off, h))
]

-- Filters that are valid and are set for an open connection are answered with success, and are
-- what the connection's filters are then read as.
pub set-get :
    (f : FilterManager) (id : String) (filters : ConnectionFilters)
    → open_in f.manager id ≡ true
    → is_valid filters ≡ true
    → ((handle_set_connection_filters f id (parsed filters)).1 ≡ ok "Filters updated successfully")
      × (handle_get_connection_filters (handle_set_connection_filters f id (parsed filters)).0 id
          ≡ filters_found filters)
unfolding validate_connection_exists handle_set_connection_filters handle_get_connection_filters
    set_parsed if_valid set_and_save set_connection_filters save_connection_preferences set_filters
    change_filters
set-get f id filters up valid = rw (exists-open f id up, valid) (refl, rw (still, read) refl)
  where
    after : WebSocketManager
    after = set_connection_filters f.manager id filters

    still : contains (connection_ids after) id ≡ true
    still =
        exists-open (record f { manager = after }) id
          (open_in-changed (λ _. filters) f.manager id id ∙ up)

    read : filters_of after id ≡ filters
    read = filters_of-changed (λ _. filters) f.manager id id ∙ rw ((eq_iff id id).1 refl, up) refl
