-- ===== src/Sockets/Examples.antt =====
-- Tests of the WebSocket side of the server, and the witnesses.
use rclabs_api.Prelude.{
  ◌<◌, ◌≡◌, refl, ◌≢◌, ◌⊎◌, inl, String, true, false, none, some, List, [], ◌∷◌, length, len, ap,
  arith, lookup,
}
use rclabs_api.Jobs.State.{running, pending, empty_metrics}
use rclabs_api.Monitoring.Names.{job_metrics_update, job_log_message}
use rclabs_api.Monitoring.Messages.{
  JobStatusUpdate, LogMessage, WebSocketMessage, create_job_status_update, create_log_message,
}
use rclabs_api.Monitoring.Filters.{ConnectionFilters, no_filters, is_valid, validate_job_id}
use rclabs_api.Sockets.Connection.{
  Clock, Connection, new_connection, run_posted, should_receive_for,
}
use rclabs_api.Sockets.Connection.Sending.{sends, accepts, happens, nothing_written}
use rclabs_api.Sockets.Table.{ConnectionPoolConfig, default_pool_config, ConnectionPool}
use rclabs_api.Sockets.Table.Capacity.{
  Call, adds, configures, calls, IsWithin, limit_of, calls-IsWithin,
}
use rclabs_api.Sockets.Broadcasts.{
  MessageBroadcasterConfig, default_broadcaster_config, QueuedMessage, Hub, broadcast_message,
  broadcast_log_message, broadcast_by_message_type, broadcast_job_update,
  broadcast_with_advanced_routing, process_message_queue, flush_queue,
}
use rclabs_api.Sockets.Broadcasts.Requeueing.{Requeued, queue-never_sent}
use rclabs_api.Sockets.Broadcasts.Delivery.{Delivers, broadcasts-Delivers}
use rclabs_api.Sockets.Broadcasts.Routing.{routes_agree}
use rclabs_api.Sockets.Preferences.{FilterManager, new_filter_manager}
use rclabs_api.Sockets.Preferences.Handlers.{
  filters_found, ok, parsed, handle_set_connection_filters, handle_get_connection_filters,
}
use rclabs_api.Sockets.Preferences.Changes.{open_in}
use rclabs_api.Sockets.Preferences.Agreement.{Agrees}
use rclabs_api.Sockets.Preferences.Requests.{
  Request, sets, adds_job, removes_job, adds_level, handle_all, handle_all-Agrees,
}
use rclabs_api.Sockets.Preferences.RoundTrip.{set-get}

abbrev noon : Clock
noon = record { system = 1000; steady = 1 }

abbrev accepted : String → Connection
unfolding new_connection
accepted id = record (new_connection id) { is_open = true }

abbrev one_sent : Connection
unfolding new_connection
one_sent = record (accepted "c1") { posted = "hello" ∷ [] }

nothing_written_example :
    (one_sent.written ≡ [])
    × ((one_sent.posted ≡ []) ⊎ (one_sent.is_open ≡ false) ⊎ (run_posted one_sent ≡ none))
unfolding happens new_connection one_sent
nothing_written_example = nothing_written "c1" (accepts ∷ sends "hello" noon ∷ []) one_sent refl

first_task_is_undefined : run_posted one_sent ≡ none
unfolding run_posted one_sent
first_task_is_undefined = refl

abbrev two_connections : ConnectionPool
two_connections = record {
  config = default_pool_config;
  connections = ("c1", accepted "c1") ∷ ("c2", new_connection "c2") ∷ [];
  running = true;
  health_monitoring_active = true;
}

abbrev small : ConnectionPoolConfig
small = record default_pool_config { max_connections = 2 }

abbrev some_calls : List Call
some_calls = adds (some (accepted "c3")) ∷ configures small ∷ adds (some (accepted "c4")) ∷ []

calls-IsWithin_example : IsWithin 1000 (calls two_connections some_calls)
unfolding limit_of
calls-IsWithin_example =
    calls-IsWithin 1000 some_calls two_connections (omega arith, (omega arith, (omega arith, tt)))
      (omega arith, omega arith)

abbrev waiting_log : QueuedMessage
waiting_log = record {
  message = "log";
  message_type = job_log_message;
  job_id = "job-1";
  log_level = "INFO";
  timestamp = 7;
  priority = 0;
}

abbrev hub_with : MessageBroadcasterConfig → List QueuedMessage → Hub
hub_with config queue = record {
  broadcaster = record {
    config = config;
    running = true;
    message_queue = queue;
    processing_threads = 4;
    stats = record {
      total_messages_sent = 0;
      total_messages_queued = 1;
      total_messages_dropped = 0;
      current_queue_size = 1;
    };
  };
  table = two_connections;
}

abbrev busy : Hub
busy = hub_with default_broadcaster_config (waiting_log ∷ [])

queue-never_sent_example :
    ((k : Hub) × (process_message_queue (λ _. 0) 3 busy noon ≡ some k) × Requeued busy 0 k)
    × ((length busy.broadcaster.message_queue ≡ 0)
        ⊎ ((k : Hub) × (flush_queue (λ _. 0) 3 busy noon ≡ some (k, false)) × Requeued busy 0 k))
queue-never_sent_example =
    queue-never_sent (λ _. 0) 3 busy noon (record { running = refl; async = refl }) (omega arith)

abbrev direct : Hub
direct = hub_with (record default_broadcaster_config { enable_async_processing = false }) []

broadcasts-Delivers_example :
    Delivers (λ c. true) direct "hello" noon (broadcast_message direct "hello" noon)
    × Delivers
        (λ c. should_receive_for c job_log_message "job-1" "INFO")
        direct
        "hello"
        noon
        (broadcast_log_message direct "hello" "job-1" "INFO" noon)
    × Delivers
        (λ c. should_receive_for c job_metrics_update "job-1" "")
        direct
        "hello"
        noon
        (broadcast_by_message_type direct "hello" job_metrics_update "job-1" noon)
broadcasts-Delivers_example =
    broadcasts-Delivers direct "hello" job_metrics_update "job-1" "INFO" noon refl refl

abbrev an_update : JobStatusUpdate
unfolding empty_metrics
an_update = record {
  job_id = "job-1";
  status = running;
  previous_status = pending;
  timestamp = 5;
  progress_percent = 0;
  current_step = "";
  error = none;
  metrics = empty_metrics;
}

abbrev a_log : LogMessage
a_log = record {
  job_id = "job-1";
  level = "INFO";
  component = "c";
  message = "m";
  timestamp = 5;
  context = [];
}

abbrev payload : WebSocketMessage → String
payload m = m.data_text

named : (s : String) → 0 < len s → s ≢ ""
named s h e = empty (ap len e)
  where
    empty : ¬ (len s ≡ len "")
    empty e = omega (arith, e)

routes_agree_example :
    (broadcast_with_advanced_routing payload direct (create_job_status_update an_update "{}" 5) noon
      ≡ broadcast_job_update direct
          (payload (create_job_status_update an_update "{}" 5))
          "job-1"
          noon)
    × (broadcast_with_advanced_routing payload direct (create_log_message a_log "{}" 5) noon
        ≡ broadcast_log_message direct
            (payload (create_log_message a_log "{}" 5))
            "job-1"
            "INFO"
            noon)
unfolding an_update
routes_agree_example =
    routes_agree payload direct an_update a_log "{}" 5 noon refl (named "job-1" (omega arith))
      (named "job-1" (omega arith)) (named "INFO" (omega arith))

abbrev filter_manager : FilterManager
unfolding new_filter_manager
filter_manager = new_filter_manager (record {
  config = record {
    pool_config = default_pool_config;
    broadcaster_config = default_broadcaster_config;
    auto_start_components = true;
  };
  running = true;
  hub = direct;
})

abbrev some_filters : ConnectionFilters
unfolding no_filters
some_filters = record no_filters { job_ids = "job-1" ∷ [] }

abbrev some_requests : List Request
some_requests =
    sets "c1" (parsed some_filters)
    ∷ adds_job "c1" "job-2"
    ∷ removes_job "c1" "job-1"
    ∷ adds_level "c2" "INFO"
    ∷ []

handle_all-Agrees_example : Agrees (handle_all filter_manager some_requests)
unfolding filter_manager lookup
handle_all-Agrees_example = handle_all-Agrees some_requests filter_manager (λ j. inl refl)

set-get_example :
    ((handle_set_connection_filters filter_manager "c1" (parsed some_filters)).1
      ≡ ok "Filters updated successfully")
    × (handle_get_connection_filters
          (handle_set_connection_filters filter_manager "c1" (parsed some_filters)).0
          "c1"
        ≡ filters_found some_filters)
unfolding filter_manager open_in lookup some_filters is_valid validate_job_id accepted
set-get_example = set-get filter_manager "c1" some_filters refl refl
