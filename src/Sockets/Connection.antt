-- ===== src/Sockets/Connection.antt =====
-- WebSocketConnection of src/websocket_connection.cpp. What the methods do at once is one step. A
-- task that is posted to the executor waits in `posted` until `run_posted`, and the texts handed to
-- `async_write` are kept in `written`. `none` is undefined behaviour: a mutex locked twice by one
-- thread or unlocked while it is free, `pop` on an empty queue, or an overflow of the clock. Boost's
-- handshake, reads, pings and timers are not modelled: their handlers are called with a result.
pub mod Sending
use rclabs_api.Prelude.{
  ℕ, suc, ◌+◌, ◌*◌, ◌^◌, String, str_eq, Bool, true, false, not, ◌&&◌, ◌||◌, ltb, leb, ◌>>=◌,
  Option, none, some, List, [], ◌∷◌, ◌++◌, length, add_new, remove_first, if◌then◌else◌,
}
use rclabs_api.Breaker.{
  State, opened, Breaker, connection_breaker, allow_operation, on_success, on_failure,
  is_in_degraded_mode,
}
use rclabs_api.Recovery.States.{
  at, ConnectionRecoveryConfig, default_connection_config, ConnectionRecoveryState,
  should_attempt_reconnect, add_pending_message, get_pending_messages,
}
use rclabs_api.Monitoring.Names.{MessageType}
use rclabs_api.Monitoring.Messages.{WebSocketMessage}
use rclabs_api.Monitoring.Filters.{
  ConnectionFilters, no_filters, should_receive_message, add_job_id, remove_job_id,
  add_message_type, remove_message_type, add_log_level, remove_log_level, clear,
}

-- A reading of the two clocks: the system clock in nanoseconds since the epoch, the steady clock,
-- which the circuit breaker reads, in seconds.
pub record Clock : Type 0 where
  pub system : ℕ
  pub steady : ℕ

pub record Connection : Type 0 where
  pub connection_id : String
  pub is_open : Bool
  pub is_writing : Bool
  pub message_queue : List String
  pub queue_locked : Bool
  pub filters : ConnectionFilters
  pub recovery_config : ConnectionRecoveryConfig
  pub recovery_state : ConnectionRecoveryState
  pub circuit_breaker : Breaker
  pub heartbeat_active : Bool
  pub last_heartbeat : ℕ
  pub posted : List String
  pub written : List String

abbrev pub new_recovery : ConnectionRecoveryState
new_recovery = record {
  is_recovering = false;
  reconnect_attempts = 0;
  missed_heartbeats = 0;
  last_heartbeat = at 0;
  last_reconnect_attempt = at 0;
  pending_messages = [];
}

unfoldable pub new_connection : String → Connection
unfolding no_filters connection_breaker
new_connection id = record {
  connection_id = id;
  is_open = false;
  is_writing = false;
  message_queue = [];
  queue_locked = false;
  filters = no_filters;
  recovery_config = default_connection_config;
  recovery_state = new_recovery;
  circuit_breaker = connection_breaker;
  heartbeat_active = false;
  last_heartbeat = 0;
  posted = [];
  written = [];
}

-- `send` on a connection that is not open.
unfoldable pub send_closed : Connection → String → Option Connection
unfolding add_pending_message
send_closed c message =
    if c.recovery_config.enable_auto_reconnect && c.recovery_state.is_recovering
    then elim (add_pending_message c.recovery_state message c.recovery_config) [
      | none ↦ none
      | some s ↦ some (record c { recovery_state = s })
    ]
    else some c

-- `send` from the test of the circuit breaker on.
unfoldable pub send_open : Connection → String → Clock → Connection
unfolding allow_operation
send_open c message now =
    let (breaker, allowed) = allow_operation c.circuit_breaker now.steady in
    let tested = record c { circuit_breaker = breaker } in
    if not allowed then tested else record tested { posted = c.posted ++ message ∷ [] }

unfoldable pub send : Connection → String → Clock → Option Connection
unfolding send_closed send_open
send c message now = if not c.is_open then send_closed c message else some (send_open c message now)

-- `std::mutex` is not recursive.
lock_queue : Connection → Option Connection
lock_queue c = if c.queue_locked then none else some (record c { queue_locked = true })

unlock_queue : Connection → Option Connection
unlock_queue c = if not c.queue_locked then none else some (record c { queue_locked = false })

-- `doWrite` with the mutex held. The lock guard is destroyed by hand before the write and once
-- more at the end of the block.
write_locked : Connection → List String → Option Connection
unfolding unlock_queue
write_locked c [] = unlock_queue (record c { is_writing = false })
write_locked c (message ∷ rest) = do
  released ← unlock_queue (record c { is_writing = true; message_queue = rest })
  unlock_queue (record released { written = c.written ++ message ∷ [] })

unfoldable pub do_write : Connection → Option Connection
unfolding lock_queue write_locked
do_write c =
    if not c.is_open
    then some c
    else elim (lock_queue c) [ none ↦ none | some l ↦ write_locked l l.message_queue ]

abbrev without_oldest : List String → Option (List String)
without_oldest [] = none
without_oldest (_ ∷ rest) = some rest

-- The queue of the posted task once its size is tested.
make_room : Connection → Option (List String)
make_room c =
    if leb c.recovery_config.message_queue_max_size (length c.message_queue)
    then without_oldest c.message_queue
    else some c.message_queue

-- The task that `send` posts, which calls `doWrite` while it holds the mutex itself.
unfoldable pub queue_message : Connection → String → Option Connection
unfolding lock_queue make_room do_write unlock_queue
queue_message c message = do
  locked ← lock_queue c
  kept ← make_room locked
  let pushed = record locked { message_queue = kept ++ message ∷ [] }
  sent ← (if not pushed.is_writing then do_write pushed else some pushed)
  unlock_queue sent

-- The executor runs the oldest posted task.
unfoldable pub run_posted : Connection → Option Connection
unfolding queue_message
run_posted c = elim c.posted [
  | [] ↦ some c
  | message ∷ rest ↦ queue_message (record c { posted = rest }) message
]

-- `onAccept` without an error, up to the call of the manager.
unfoldable pub on_accept : Connection → Connection
on_accept c = record c { is_open = true }

unfoldable pub stop_heartbeat : Connection → Connection
stop_heartbeat c = if not c.heartbeat_active then c else record c { heartbeat_active = false }

unfoldable pub start_heartbeat : Connection → Clock → Connection
start_heartbeat c now =
    if not c.recovery_config.enable_heartbeat || c.heartbeat_active
    then c
    else record c { heartbeat_active = true; last_heartbeat = now.system }

unfoldable pub on_heartbeat_received : Connection → Clock → Connection
on_heartbeat_received c now = if not c.recovery_config.enable_heartbeat then c else record c {
  last_heartbeat = now.system;
  recovery_state = record c.recovery_state { missed_heartbeats = 0 };
}

unfoldable pub set_recovery_config : Connection → ConnectionRecoveryConfig → Clock → Connection
unfolding start_heartbeat stop_heartbeat
set_recovery_config c config now =
    let changed = record c { recovery_config = config } in
    if config.enable_heartbeat && c.is_open
    then start_heartbeat changed now
    else if not config.enable_heartbeat
    then stop_heartbeat changed
    else changed

unfoldable pub is_healthy : Connection → Clock → Bool
unfolding is_in_degraded_mode
is_healthy c now =
    if not c.is_open
    then false
    else if is_in_degraded_mode c.circuit_breaker
    then false
    else if c.recovery_config.enable_heartbeat
    then ltb now.system (
        c.last_heartbeat
        + c.recovery_config.heartbeat_interval * 10 ^ 9 * c.recovery_config.max_missed_heartbeats)
    else true

-- The results of an operation on the socket that the handlers tell apart.
pub data SocketError : Type 0 where
  closed_by_peer operation_aborted connection_refused timed_out other_error : SocketError

unfoldable pub should_attempt_recovery : Connection → SocketError → Clock → Connection × Option Bool
unfolding allow_operation should_attempt_reconnect
should_attempt_recovery c closed_by_peer now = (c, some false)
should_attempt_recovery c operation_aborted now = (c, some false)
should_attempt_recovery c connection_refused now = (c, some false)
should_attempt_recovery c _ now =
    let (breaker, allowed) = allow_operation c.circuit_breaker now.steady in
    let tested = record c { circuit_breaker = breaker } in
    if not allowed
    then (tested, some false)
    else (tested, should_attempt_reconnect c.recovery_state c.recovery_config now.system)

-- The connection, and whether the manager is told to remove it; `manager` tells whether it lives.
unfoldable pub attempt_recovery : Connection → Bool → Clock → Connection × Bool
attempt_recovery c manager now =
    let s = c.recovery_state in
    if s.is_recovering
    then (c, false)
    else if manager
    then (
      record c {
        is_open = false;
        recovery_state = record s {
          is_recovering = false;
          reconnect_attempts = suc s.reconnect_attempts;
          last_reconnect_attempt = at now.system;
        };
      },
      true,
    )
    else (
      record c {
        recovery_state = record s {
          is_recovering = true;
          reconnect_attempts = suc s.reconnect_attempts;
          last_reconnect_attempt = at now.system;
        };
      },
      false,
    )

give_up : Connection → Bool → Connection × Bool
unfolding stop_heartbeat
give_up c manager = (stop_heartbeat (record c { is_open = false; is_writing = false }), manager)

-- The custom error handler is not modelled: nothing sets one.
unfoldable pub handle_error : Connection → SocketError → Bool → Clock → Option (Connection × Bool)
unfolding on_failure should_attempt_recovery attempt_recovery give_up
handle_error c ec manager now =
    let failing = record c { circuit_breaker = on_failure c.circuit_breaker now.steady } in
    let (tested, attempt) = should_attempt_recovery failing ec now in
    elim attempt [
      | none ↦ none
      | some true ↦ some (attempt_recovery tested manager now)
      | some false ↦ some (give_up tested manager)
    ]

-- `onRead`: the client has closed, another error, or a message, which is only logged.
unfoldable pub on_read : Connection → Option SocketError → Bool → Clock → Option (Connection × Bool)
unfolding stop_heartbeat handle_error on_heartbeat_received on_success
on_read c (some closed_by_peer) manager now =
    some (stop_heartbeat (record c { is_open = false }), manager)
on_read c (some ec) manager now = handle_error c ec manager now
on_read c none manager now =
    let d = on_heartbeat_received c now in
    some (record d { circuit_breaker = on_success c.circuit_breaker }, false)

unfoldable pub on_write :
    Connection → Option SocketError → Bool → Clock → Option (Connection × Bool)
unfolding handle_error on_success do_write
on_write c (some ec) manager now = handle_error c ec manager now
on_write c none manager now =
    elim (do_write (record c { circuit_breaker = on_success c.circuit_breaker })) [
      | none ↦ none
      | some d ↦ some (d, false)
    ]

-- `close` and `doClose`; the second result tells whether the close handler will run, which has the
-- manager remove the connection.
unfoldable pub do_close : Connection → Connection × Bool
do_close c = if not c.is_open then (c, false) else (record c { is_open = false }, true)

unfoldable pub check_heartbeat_timeout : Connection → Bool → Clock → Option (Connection × Bool)
unfolding handle_error
check_heartbeat_timeout c manager now =
    let missed = suc c.recovery_state.missed_heartbeats in
    let late = record c {
      recovery_state = record c.recovery_state { missed_heartbeats = missed };
    } in
    if not c.recovery_config.enable_heartbeat
    then some (c, false)
    else if ltb (c.last_heartbeat + c.recovery_config.heartbeat_interval * 10 ^ 9) now.system
    then if leb c.recovery_config.max_missed_heartbeats missed
      then handle_error late timed_out manager now
      else some (late, false)
    else some (c, false)

-- The filters, under their own mutex.
unfoldable pub set_filters : Connection → ConnectionFilters → Connection
set_filters c f = record c { filters = f }

unfoldable pub change_filters : (ConnectionFilters → ConnectionFilters) → Connection → Connection
change_filters change c = record c { filters = change c.filters }

-- An empty text is no target.
abbrev target : String → Option String
target text = if str_eq text "" then none else some text

unfoldable pub should_receive_for : Connection → MessageType → String → String → Bool
unfolding should_receive_message
should_receive_for c t job_id level = should_receive_message c.filters (record {
  message_type = t;
  timestamp = 0;
  data_text = "";
  target_job_id = target job_id;
  target_level = target level;
})
