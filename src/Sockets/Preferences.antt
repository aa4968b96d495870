-- ===== src/Sockets/Preferences.antt =====
-- WebSocketFilterManager of src/websocket_filter_manager.cpp: the requests by which the filters of
-- a connection are read and changed, the preferences that are stored for a connection, and the
-- templates. The text of a request is taken as what parseConnectionFiltersFromJson and
-- parseWebSocketMessageFromJson make of it, and a response holds filters and figures where the
-- source has their JSON text. A lock is always got.
pub mod Handlers
pub mod Changes
pub mod Agreement
pub mod Requests
pub mod RoundTrip
use rclabs_api.Prelude.{
  ℕ, suc, ◌+◌, String, str_eq, str_append, Bool, true, false, not, ◌&&◌, Option, none, some, List,
  [], ◌∷◌, Dict, lookup, insert, erase, keys, contains, string_eq, if◌then◌else◌,
}
use rclabs_api.Monitoring.Names.{
  MessageType, job_status_update, job_progress_update, system_notification, error_message,
}
use rclabs_api.Monitoring.Messages.{WebSocketMessage}
use rclabs_api.Monitoring.Filters.{
  ConnectionFilters, no_filters, is_valid, get_validation_errors, get_total_filter_count,
  should_receive_message,
}
use rclabs_api.Sockets.Connection.{Clock}
use rclabs_api.Sockets.Manager.{
  WebSocketManager, connection_ids, filters_of, set_connection_filters, clear_connection_filters,
  get_connection_count, filtered_connection_count, unfiltered_connection_count, broadcast, matching,
}

pub record FilterManager : Type 0 where
  pub manager : WebSocketManager
  pub stored_preferences : Dict ConnectionFilters
  pub filter_templates : Dict ConnectionFilters

abbrev default_templates : Dict ConnectionFilters
default_templates =
    (
      "error-only",
      record {
        job_ids = [];
        log_levels = "ERROR" ∷ "FATAL" ∷ [];
        message_types = [];
        include_system_notifications = true;
      },
    )
    ∷ (
      "job-status",
      record {
        job_ids = [];
        log_levels = [];
        message_types = job_status_update ∷ job_progress_update ∷ [];
        include_system_notifications = true;
      },
    )
    ∷ (
      "system-notifications",
      record {
        job_ids = [];
        log_levels = [];
        message_types = system_notification ∷ error_message ∷ [];
        include_system_notifications = true;
      },
    )
    ∷ (
      "verbose",
      record {
        job_ids = [];
        log_levels = "DEBUG" ∷ "INFO" ∷ "WARN" ∷ "ERROR" ∷ [];
        message_types = [];
        include_system_notifications = true;
      },
    )
    ∷ []

unfoldable pub new_filter_manager : WebSocketManager → FilterManager
new_filter_manager m = record {
  manager = m;
  stored_preferences = [];
  filter_templates = default_templates;
}

unfoldable pub validate_connection_exists : FilterManager → String → Bool
validate_connection_exists f id = contains (connection_ids f.manager) id

unfoldable pub save_connection_preferences :
    FilterManager → String → ConnectionFilters → FilterManager
save_connection_preferences f id filters = record f {
  stored_preferences = insert id filters f.stored_preferences;
}

unfoldable pub load_connection_preferences : FilterManager → String → Option ConnectionFilters
load_connection_preferences f id = lookup id f.stored_preferences

unfoldable pub clear_stored_preferences : FilterManager → String → FilterManager
clear_stored_preferences f id = record f { stored_preferences = erase id f.stored_preferences }

-- The filters of a connection and its preferences are set together.
unfoldable pub set_and_save : FilterManager → String → ConnectionFilters → FilterManager
unfolding save_connection_preferences set_connection_filters
set_and_save f id filters =
    save_connection_preferences (record f { manager = set_connection_filters f.manager id filters })
      id filters

unfoldable pub clear_and_forget : FilterManager → String → FilterManager
unfolding clear_stored_preferences clear_connection_filters
clear_and_forget f id =
    clear_stored_preferences (record f { manager = clear_connection_filters f.manager id }) id

unfoldable pub apply_filters_to_multiple_connections :
    FilterManager → List String → ConnectionFilters → FilterManager
unfolding validate_connection_exists set_and_save
apply_filters_to_multiple_connections f [] filters = f
apply_filters_to_multiple_connections f (id ∷ ids) filters =
    apply_filters_to_multiple_connections
      (if validate_connection_exists f id then set_and_save f id filters else f) ids filters

unfoldable pub clear_filters_from_multiple_connections : FilterManager → List String → FilterManager
unfolding validate_connection_exists clear_and_forget
clear_filters_from_multiple_connections f [] = f
clear_filters_from_multiple_connections f (id ∷ ids) =
    clear_filters_from_multiple_connections
      (if validate_connection_exists f id then clear_and_forget f id else f) ids

matching_of : WebSocketManager → (ConnectionFilters → Bool) → List String → List String
matching_of m test [] = []
matching_of m test (id ∷ ids) =
    let more = matching_of m test ids in if test (filters_of m id) then id ∷ more else more

unfoldable pub find_connections_matching_filter :
    FilterManager → (ConnectionFilters → Bool) → List String
unfolding matching_of
find_connections_matching_filter f test = matching_of f.manager test (connection_ids f.manager)

pub broadcast_to_filtered_by :
    (WebSocketMessage → String)
    → FilterManager
    → WebSocketMessage
    → (ConnectionFilters → Bool)
    → Clock
    → Option FilterManager
broadcast_to_filtered_by to_json f message custom now =
    elim (broadcast to_json f.manager
      (matching message (λ filters m. custom filters && should_receive_message filters m)) now) [
        | none ↦ none
        | some m ↦ some (record f { manager = m })
      ]

unfoldable pub save_filter_template : FilterManager → String → ConnectionFilters → FilterManager
save_filter_template f name filters = record f {
  filter_templates = insert name filters f.filter_templates;
}

unfoldable pub load_filter_template : FilterManager → String → Option ConnectionFilters
load_filter_template f name = lookup name f.filter_templates

unfoldable pub apply_filter_template : FilterManager → String → String → FilterManager
unfolding load_filter_template validate_connection_exists set_and_save
apply_filter_template f id name = elim (load_filter_template f name) [
  | none ↦ f
  | some filters ↦ if validate_connection_exists f id then set_and_save f id filters else f
]

pub get_available_filter_templates : FilterManager → List String
get_available_filter_templates f = keys f.filter_templates

-- The counts by job, by type and by level are left out, and so is the average.
pub record FilterStatistics : Type 0 where
  pub total_connections : ℕ
  pub filtered_connections : ℕ
  pub unfiltered_connections : ℕ
  pub total_filters : ℕ

total_of : WebSocketManager → List String → ℕ
total_of m [] = 0
total_of m (id ∷ ids) = get_total_filter_count (filters_of m id) + total_of m ids

unfoldable pub get_filter_statistics : FilterManager → FilterStatistics
unfolding total_of
get_filter_statistics f = record {
  total_connections = get_connection_count f.manager;
  filtered_connections = filtered_connection_count f.manager;
  unfiltered_connections = unfiltered_connection_count f.manager;
  total_filters = total_of f.manager (connection_ids f.manager);
}
