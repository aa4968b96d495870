-- ===== src/Sockets/Preferences/Handlers.antt =====
-- The request handlers of src/websocket_filter_manager.cpp.
use rclabs_api.Prelude.{ℕ, String, str_append, Bool, not, if◌then◌else◌}
use rclabs_api.Monitoring.Names.{
  string_to_message_type, message_type_to_string, validate_message_type,
}
use rclabs_api.Monitoring.Messages.{WebSocketMessage}
use rclabs_api.Monitoring.Filters.{
  ConnectionFilters, validate_job_id, validate_log_level, is_valid, get_validation_errors,
}
use rclabs_api.Sockets.Manager.{
  WebSocketManager, filters_of, update_connection_filters, add_job_filter_to_connection,
  remove_job_filter_from_connection, add_message_type_filter_to_connection,
  remove_message_type_filter_from_connection, add_log_level_filter_to_connection,
  remove_log_level_filter_from_connection, connection_accepts,
}
use rclabs_api.Sockets.Preferences.{
  FilterManager, validate_connection_exists, save_connection_preferences, set_and_save,
  clear_and_forget, FilterStatistics, get_filter_statistics,
}

pub data Response : Type 0 where
  ok : String → Response
  filters_found : ConnectionFilters → Response
  statistics : FilterStatistics → Response
  accepts : String → Bool → String → Response
  refused : ℕ → String → Response

-- What a parser makes of a request's text: a value, or an exception with its text.
pub data Parsed (A : Type 0) : Type 0 where
  parsed : A → Parsed A
  unreadable : String → Parsed A

unfoldable pub not_found : String → Response
not_found id = refused 404 (str_append "Connection not found: " id)

unfoldable pub handle_get_connection_filters : FilterManager → String → Response
unfolding validate_connection_exists not_found
handle_get_connection_filters f id =
    if not (validate_connection_exists f id)
    then not_found id
    else filters_found (filters_of f.manager id)

-- `validateFilterData`, and what follows it if the data is valid.
unfoldable pub if_valid :
    FilterManager → ConnectionFilters → FilterManager → FilterManager × Response
if_valid f filters changed =
    if not (is_valid filters)
    then (f, refused 400 (str_append "Invalid filter data: " (get_validation_errors filters)))
    else (changed, ok "Filters updated successfully")

unfoldable pub set_parsed :
    FilterManager → String → Parsed ConnectionFilters → FilterManager × Response
unfolding set_and_save if_valid
set_parsed f id (parsed filters) = if_valid f filters (set_and_save f id filters)
set_parsed f id (unreadable what) =
    (f, refused 400 (str_append "Failed to parse filter data: " what))

unfoldable pub handle_set_connection_filters :
    FilterManager → String → Parsed ConnectionFilters → FilterManager × Response
unfolding validate_connection_exists not_found set_parsed
handle_set_connection_filters f id body =
    if not (validate_connection_exists f id) then (f, not_found id) else set_parsed f id body

unfoldable pub update_parsed :
    FilterManager → String → Parsed ConnectionFilters → FilterManager × Response
unfolding save_connection_preferences update_connection_filters if_valid
update_parsed f id (parsed filters) = if_valid f filters (
    save_connection_preferences
      (record f { manager = update_connection_filters f.manager id filters }) id filters)
update_parsed f id (unreadable what) =
    (f, refused 400 (str_append "Failed to parse filter data: " what))

unfoldable pub handle_update_connection_filters :
    FilterManager → String → Parsed ConnectionFilters → FilterManager × Response
unfolding validate_connection_exists not_found update_parsed
handle_update_connection_filters f id body =
    if not (validate_connection_exists f id) then (f, not_found id) else update_parsed f id body

-- The manager has been changed: store what the connection's filters now are.
unfoldable pub stored_after :
    FilterManager → String → WebSocketManager → String → FilterManager × Response
unfolding save_connection_preferences filters_of
stored_after f id m text =
    (save_connection_preferences (record f { manager = m }) id (filters_of m id), ok text)

unfoldable pub handle_add_job_filter : FilterManager → String → String → FilterManager × Response
unfolding validate_connection_exists not_found stored_after
handle_add_job_filter f id job_id =
    if not (validate_connection_exists f id)
    then (f, not_found id)
    else if not (validate_job_id job_id)
    then (f, refused 400 (str_append "Invalid job ID: " job_id))
    else stored_after f id (add_job_filter_to_connection f.manager id job_id)
        "Job filter added successfully"

unfoldable pub handle_remove_job_filter : FilterManager → String → String → FilterManager × Response
unfolding validate_connection_exists not_found stored_after
handle_remove_job_filter f id job_id =
    if not (validate_connection_exists f id)
    then (f, not_found id)
    else stored_after f id (remove_job_filter_from_connection f.manager id job_id)
        "Job filter removed successfully"

unfoldable pub handle_add_message_type_filter :
    FilterManager → String → String → FilterManager × Response
unfolding validate_connection_exists not_found stored_after
handle_add_message_type_filter f id name =
    if not (validate_connection_exists f id)
    then (f, not_found id)
    else if not (validate_message_type name)
    then (f, refused 400 (str_append "Invalid message type: " name))
    else stored_after f id
        (add_message_type_filter_to_connection f.manager id (string_to_message_type name))
        "Message type filter added successfully"

-- An unknown name is taken for an error message.
unfoldable pub handle_remove_message_type_filter :
    FilterManager → String → String → FilterManager × Response
unfolding validate_connection_exists not_found stored_after
handle_remove_message_type_filter f id name =
    if not (validate_connection_exists f id)
    then (f, not_found id)
    else stored_after f id
        (remove_message_type_filter_from_connection f.manager id (string_to_message_type name))
        "Message type filter removed successfully"

unfoldable pub handle_add_log_level_filter :
    FilterManager → String → String → FilterManager × Response
unfolding validate_connection_exists not_found stored_after
handle_add_log_level_filter f id level =
    if not (validate_connection_exists f id)
    then (f, not_found id)
    else if not (validate_log_level level)
    then (f, refused 400 (str_append "Invalid log level: " level))
    else stored_after f id (add_log_level_filter_to_connection f.manager id level)
        "Log level filter added successfully"

unfoldable pub handle_remove_log_level_filter :
    FilterManager → String → String → FilterManager × Response
unfolding validate_connection_exists not_found stored_after
handle_remove_log_level_filter f id level =
    if not (validate_connection_exists f id)
    then (f, not_found id)
    else stored_after f id (remove_log_level_filter_from_connection f.manager id level)
        "Log level filter removed successfully"

unfoldable pub handle_clear_connection_filters : FilterManager → String → FilterManager × Response
unfolding validate_connection_exists not_found clear_and_forget
handle_clear_connection_filters f id =
    if not (validate_connection_exists f id)
    then (f, not_found id)
    else (clear_and_forget f id, ok "All filters cleared successfully")

-- `handleGetFilterStatistics` does the same.
pub handle_get_connection_stats : FilterManager → Response
handle_get_connection_stats f = statistics (get_filter_statistics f)

test_parsed : FilterManager → String → Parsed WebSocketMessage → Response
test_parsed f id (parsed m) =
    accepts id (connection_accepts f.manager id m) (message_type_to_string m.message_type)
test_parsed f id (unreadable what) = refused 400 (str_append "Failed to parse test message: " what)

pub handle_test_connection_filter : FilterManager → String → Parsed WebSocketMessage → Response
unfolding test_parsed validate_connection_exists not_found
handle_test_connection_filter f id body =
    if not (validate_connection_exists f id) then not_found id else test_parsed f id body
