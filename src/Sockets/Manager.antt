-- ===== src/Sockets/Manager.antt =====
-- WebSocketManager of src/websocket_manager.cpp, over the table and the broadcaster that it owns.
-- Every call but the start is refused while the manager does not run. The upgrade of an HTTP
-- connection is not modelled.
use rclabs_api.Prelude.{
  ℕ, String, Bool, true, false, not, ◌&&◌, Option, none, some, ◌>>=◌, List, [], if◌then◌else◌,
}
use rclabs_api.Errors.{ErrorCode}
use rclabs_api.Sockets.Broadcasts
use rclabs_api.Sockets.Table
use rclabs_api.Monitoring.Names.{MessageType}
use rclabs_api.Monitoring.Messages.{WebSocketMessage}
use rclabs_api.Monitoring.Filters.{
  ConnectionFilters, no_filters, add_job_id, remove_job_id, add_message_type, remove_message_type,
  add_log_level, remove_log_level, clear,
}
use rclabs_api.Sockets.Connection.{Clock, Connection, set_filters, change_filters}
use rclabs_api.Sockets.Table.{
  ConnectionPoolConfig, ConnectionPool, new_pool, add_connection, remove_connection,
  get_active_connection_count, get_connection_ids, update_config,
}
use rclabs_api.Sockets.Broadcasts.{
  MessageBroadcasterConfig, Broadcaster, Hub, broadcast_message, send_to_connection,
  broadcast_job_update, broadcast_log_message, broadcast_by_message_type,
  broadcast_to_filtered_connections, broadcast_with_advanced_routing, send_to_matching_connections,
  on_connection, get_connection_filters, test_connection_filter, get_connections_for_job,
  get_connections_for_message_type, get_connections_for_log_level, get_filtered_connection_count,
  get_unfiltered_connection_count,
}

pub record WebSocketManagerConfig : Type 0 where
  pub pool_config : ConnectionPoolConfig
  pub broadcaster_config : MessageBroadcasterConfig
  pub auto_start_components : Bool

pub record WebSocketManager : Type 0 where
  pub config : WebSocketManagerConfig
  pub running : Bool
  pub hub : Hub

unfoldable pub new_manager : WebSocketManagerConfig → WebSocketManager
new_manager config = record {
  config = config;
  running = false;
  hub = record {
    broadcaster = record {
      config = config.broadcaster_config;
      running = false;
      message_queue = [];
      processing_threads = 0;
      stats = record {
        total_messages_sent = 0;
        total_messages_queued = 0;
        total_messages_dropped = 0;
        current_queue_size = 0;
      };
    };
    table = new_pool config.pool_config;
  };
}

start_components : Hub → Hub
start_components h = record {
  broadcaster = Broadcasts.start h.broadcaster;
  table = Table.start h.table;
}

unfoldable pub start : WebSocketManager → WebSocketManager
unfolding start_components
start m =
    if m.running
    then m
    else if m.config.auto_start_components
    then record m { running = true; hub = start_components m.hub }
    else record m { running = true }

-- With the connections that are told to close.
unfoldable pub stop : WebSocketManager → WebSocketManager × List Connection
stop m =
    if not m.running
    then (m, [])
    else let (table, closing) = Table.stop m.hub.table in
      (
        record m {
          running = false;
          hub = record { broadcaster = Broadcasts.stop m.hub.broadcaster; table = table };
        },
        closing,
      )

pub is_running : WebSocketManager → Bool
is_running m = m.running && m.hub.table.running && m.hub.broadcaster.running

-- With the code of the exception that the table throws.
unfoldable pub add_connection_to :
    WebSocketManager → Option Connection → WebSocketManager × Option ErrorCode
add_connection_to m none = (m, none)
add_connection_to m (some c) =
    let (table, thrown) = add_connection m.hub.table (some c) in
    if not m.running then (m, none) else (record m { hub = record m.hub { table = table } }, thrown)

unfoldable pub remove_connection_from : WebSocketManager → String → WebSocketManager
remove_connection_from m id =
    if not m.running
    then m
    else record m { hub = record m.hub { table = remove_connection m.hub.table id } }

-- The calls that go on to the broadcaster if the manager runs.
pub data Broadcast : Type 0 where
  to_all : String → Broadcast
  to_one : String → String → Broadcast
  of_job : String → String → Broadcast
  of_log : String → String → String → Broadcast
  of_type : String → MessageType → String → Broadcast
  to_filtered : String → (ConnectionFilters → Bool) → Broadcast
  routed : WebSocketMessage → Broadcast
  matching : WebSocketMessage → (ConnectionFilters → WebSocketMessage → Bool) → Broadcast

broadcast_on : (WebSocketMessage → String) → Hub → Broadcast → Clock → Option Hub
broadcast_on to_json h (to_all message) now = broadcast_message h message now
broadcast_on to_json h (to_one id message) now = send_to_connection h id message now
broadcast_on to_json h (of_job message job_id) now = broadcast_job_update h message job_id now
broadcast_on to_json h (of_log message job_id level) now =
    broadcast_log_message h message job_id level now
broadcast_on to_json h (of_type message t job_id) now =
    broadcast_by_message_type h message t job_id now
broadcast_on to_json h (to_filtered message test) now =
    broadcast_to_filtered_connections h message test now
broadcast_on to_json h (routed m) now = broadcast_with_advanced_routing to_json h m now
broadcast_on to_json h (matching m test) now = send_to_matching_connections to_json h m test now

unfoldable pub broadcast :
    (WebSocketMessage → String) → WebSocketManager → Broadcast → Clock → Option WebSocketManager
unfolding broadcast_on
broadcast to_json m b now =
    if not m.running
    then some m
    else (broadcast_on to_json m.hub b now >>= λ h. some (record m { hub = h }))

unfoldable pub get_connection_count : WebSocketManager → ℕ
get_connection_count m = if not m.running then 0 else get_active_connection_count m.hub.table

unfoldable pub connection_ids : WebSocketManager → List String
connection_ids m = if not m.running then [] else get_connection_ids m.hub.table

-- What all calls that change the filters of a connection have in common.
unfoldable pub change_connection :
    (Connection → Connection) → WebSocketManager → String → WebSocketManager
unfolding on_connection
change_connection change m id =
    if not m.running then m else record m { hub = on_connection change m.hub id }

unfoldable pub set_connection_filters :
    WebSocketManager → String → ConnectionFilters → WebSocketManager
unfolding change_connection
set_connection_filters m id f = change_connection (λ c. set_filters c f) m id

-- `updateFilterPreferences` does what `setFilters` does.
unfoldable pub update_connection_filters :
    WebSocketManager → String → ConnectionFilters → WebSocketManager
unfolding change_connection
update_connection_filters m id f = change_connection (λ c. set_filters c f) m id

unfoldable pub filters_of : WebSocketManager → String → ConnectionFilters
unfolding get_connection_filters
filters_of m id = if not m.running then no_filters else get_connection_filters m.hub id

unfoldable pub add_job_filter_to_connection : WebSocketManager → String → String → WebSocketManager
unfolding change_connection
add_job_filter_to_connection m id job_id =
    change_connection (change_filters (λ f. add_job_id f job_id)) m id

unfoldable pub remove_job_filter_from_connection :
    WebSocketManager → String → String → WebSocketManager
unfolding change_connection
remove_job_filter_from_connection m id job_id =
    change_connection (change_filters (λ f. remove_job_id f job_id)) m id

unfoldable pub add_message_type_filter_to_connection :
    WebSocketManager → String → MessageType → WebSocketManager
unfolding change_connection
add_message_type_filter_to_connection m id t =
    change_connection (change_filters (λ f. add_message_type f t)) m id

unfoldable pub remove_message_type_filter_from_connection :
    WebSocketManager → String → MessageType → WebSocketManager
unfolding change_connection
remove_message_type_filter_from_connection m id t =
    change_connection (change_filters (λ f. remove_message_type f t)) m id

unfoldable pub add_log_level_filter_to_connection :
    WebSocketManager → String → String → WebSocketManager
unfolding change_connection
add_log_level_filter_to_connection m id level =
    change_connection (change_filters (λ f. add_log_level f level)) m id

unfoldable pub remove_log_level_filter_from_connection :
    WebSocketManager → String → String → WebSocketManager
unfolding change_connection
remove_log_level_filter_from_connection m id level =
    change_connection (change_filters (λ f. remove_log_level f level)) m id

unfoldable pub clear_connection_filters : WebSocketManager → String → WebSocketManager
unfolding change_connection
clear_connection_filters m id = change_connection (change_filters clear) m id

pub connections_for_job : WebSocketManager → String → List String
connections_for_job m job_id = if not m.running then [] else get_connections_for_job m.hub job_id

pub connections_for_message_type : WebSocketManager → MessageType → List String
connections_for_message_type m t =
    if not m.running then [] else get_connections_for_message_type m.hub t

pub connections_for_log_level : WebSocketManager → String → List String
connections_for_log_level m level =
    if not m.running then [] else get_connections_for_log_level m.hub level

pub filtered_connection_count : WebSocketManager → ℕ
filtered_connection_count m = if not m.running then 0 else get_filtered_connection_count m.hub

pub unfiltered_connection_count : WebSocketManager → ℕ
unfiltered_connection_count m = if not m.running then 0 else get_unfiltered_connection_count m.hub

pub connection_accepts : WebSocketManager → String → WebSocketMessage → Bool
connection_accepts m id message =
    if not m.running then false else test_connection_filter m.hub id message

unfoldable pub update_manager_config : WebSocketManager → WebSocketManagerConfig → WebSocketManager
update_manager_config m config = record m {
  config = config;
  hub = record {
    broadcaster = record m.hub.broadcaster { config = config.broadcaster_config };
    table = update_config m.hub.table config.pool_config;
  };
}
