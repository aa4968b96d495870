-- ===== src/Sockets/Broadcasts.antt =====
-- MessageBroadcaster of src/message_broadcaster.cpp, with the table of connections that it shares
-- with the WebSocket manager. A call is one step, its test of the queue's size and its push
-- included. All messages are queued with priority 0, and which of them `std::priority_queue` has on
-- top is the parameter `top`. The JSON text of a message is the parameter `to_json`. The time of the
-- last message and the messages per second are left out.
pub mod Delivery
pub mod Requeueing
pub mod Routing
use rclabs_api.Prelude.{
  ℕ, zero, suc, ◌+◌, min, String, Bool, true, false, not, ◌&&◌, ◌||◌, leb, Option, none, some,
  ◌>>=◌, List, [], ◌∷◌, ◌++◌, length, Dict, lookup, insert, count_values, if◌then◌else◌,
}
use rclabs_api.Monitoring.Names.{
  MessageType, job_status_update, job_log_message, system_notification,
}
use rclabs_api.Monitoring.Messages.{WebSocketMessage}
use rclabs_api.Monitoring.Filters.{
  ConnectionFilters, no_filters, should_receive_message, should_receive_job,
  should_receive_message_type, should_receive_log_level, is_empty,
}
use rclabs_api.Sockets.Connection.{Clock, Connection, send, set_filters, should_receive_for}
use rclabs_api.Sockets.Table.{
  ConnectionPool, get_connection, get_active_connections, get_connection_ids_by_filter,
}

pub record MessageBroadcasterConfig : Type 0 where
  pub max_queue_size : ℕ
  pub batch_size : ℕ
  pub enable_async_processing : Bool
  pub max_concurrent_broadcasts : ℕ

abbrev pub default_broadcaster_config : MessageBroadcasterConfig
default_broadcaster_config = record {
  max_queue_size = 10000;
  batch_size = 50;
  enable_async_processing = true;
  max_concurrent_broadcasts = 10;
}

pub record MessageBroadcasterStats : Type 0 where
  pub total_messages_sent : ℕ
  pub total_messages_queued : ℕ
  pub total_messages_dropped : ℕ
  pub current_queue_size : ℕ

pub record QueuedMessage : Type 0 where
  pub message : String
  pub message_type : MessageType
  pub job_id : String
  pub log_level : String
  pub timestamp : ℕ
  pub priority : ℕ

pub record Broadcaster : Type 0 where
  pub config : MessageBroadcasterConfig
  pub running : Bool
  pub message_queue : List QueuedMessage
  pub processing_threads : ℕ
  pub stats : MessageBroadcasterStats

-- The broadcaster and the table of connections.
pub record Hub : Type 0 where
  pub broadcaster : Broadcaster
  pub table : ConnectionPool

unfoldable pub is_queue_full : Broadcaster → Bool
is_queue_full b = leb b.config.max_queue_size (length b.message_queue)

unfoldable pub clear_queue : Broadcaster → Broadcaster
clear_queue b = record b {
  message_queue = [];
  stats = record b.stats {
    current_queue_size = 0;
    total_messages_dropped = b.stats.total_messages_dropped + length b.message_queue;
  };
}

unfoldable pub start : Broadcaster → Broadcaster
start b =
    if b.running
    then b
    else if b.config.enable_async_processing
    then record b {
      running = true;
      processing_threads = b.processing_threads + min b.config.max_concurrent_broadcasts 4;
    }
    else record b { running = true }

-- The threads end, since they find the broadcaster stopped.
unfoldable pub stop : Broadcaster → Broadcaster
unfolding clear_queue
stop b =
    if not b.running then b else clear_queue (record b { running = false; processing_threads = 0 })

unfoldable pub queued : Broadcaster → QueuedMessage → Broadcaster
queued b m = record b {
  message_queue = b.message_queue ++ m ∷ [];
  stats = record b.stats {
    total_messages_queued = suc b.stats.total_messages_queued;
    current_queue_size = suc (length b.message_queue);
  };
}

unfoldable pub update_stats : Broadcaster → ℕ → Broadcaster
update_stats b sent = record b {
  stats = record b.stats { total_messages_sent = b.stats.total_messages_sent + sent };
}

sent_to :
    Bool → String → Connection → String → Clock → Dict Connection × ℕ → Option (Dict Connection × ℕ)
sent_to false id c message now (rest, n) = some ((id, c) ∷ rest, n)
sent_to true id c message now (rest, n) = do
  reached ← send c message now
  some ((id, reached) ∷ rest, suc n)

-- The open connections that pass a test are sent the message: the table, and how many they are.
unfoldable pub send_matching :
    (Connection → Bool) → String → Clock → Dict Connection → Option (Dict Connection × ℕ)
unfolding sent_to
send_matching test message now [] = some ([], 0)
send_matching test message now ((id, c) ∷ rest) =
    send_matching test message now rest >>= sent_to (c.is_open && test c) id c message now

with_sent : Hub → Dict Connection × ℕ → Hub
unfolding update_stats
with_sent h (connections, n) = record {
  broadcaster = update_stats h.broadcaster n;
  table = record h.table { connections = connections };
}

-- The part of a broadcast that processes the message immediately.
unfoldable pub send_now : (Connection → Bool) → Hub → String → Clock → Option Hub
unfolding send_matching with_sent
send_now test h message now = do
  done ← send_matching test message now h.table.connections
  some (with_sent h done)

-- Queue the message if the configuration says so and there is room, or else send it now.
queue_or_send : (Connection → Bool) → Hub → QueuedMessage → Clock → Option Hub
unfolding is_queue_full queued send_now
queue_or_send test h m now =
    if h.broadcaster.config.enable_async_processing && not (is_queue_full h.broadcaster)
    then some (record h { broadcaster = queued h.broadcaster m })
    else send_now test h m.message now

unfoldable pub broadcast_message : Hub → String → Clock → Option Hub
unfolding queue_or_send
broadcast_message h message now =
    if not h.broadcaster.running
    then some h
    else queue_or_send (λ c. true) h
        (record {
          message = message;
          message_type = system_notification;
          job_id = "";
          log_level = "";
          timestamp = now.system;
          priority = 0;
        })
        now

unfoldable pub broadcast_log_message : Hub → String → String → String → Clock → Option Hub
unfolding queue_or_send should_receive_for
broadcast_log_message h message job_id log_level now =
    if not h.broadcaster.running
    then some h
    else queue_or_send (λ c. should_receive_for c job_log_message job_id log_level) h
        (record {
          message = message;
          message_type = job_log_message;
          job_id = job_id;
          log_level = log_level;
          timestamp = now.system;
          priority = 0;
        })
        now

unfoldable pub broadcast_by_message_type : Hub → String → MessageType → String → Clock → Option Hub
unfolding queue_or_send should_receive_for
broadcast_by_message_type h message t job_id now =
    if not h.broadcaster.running
    then some h
    else queue_or_send (λ c. should_receive_for c t job_id "") h
        (record {
          message = message;
          message_type = t;
          job_id = job_id;
          log_level = "";
          timestamp = now.system;
          priority = 0;
        })
        now

unfoldable pub broadcast_job_update : Hub → String → String → Clock → Option Hub
unfolding broadcast_by_message_type
broadcast_job_update h message job_id now =
    if not h.broadcaster.running
    then some h
    else broadcast_by_message_type h message job_status_update job_id now

-- The figure counts the closed connections that match, too; the message goes to the open ones.
unfoldable pub broadcast_to_filtered_connections :
    Hub → String → (ConnectionFilters → Bool) → Clock → Option Hub
unfolding send_matching with_sent
broadcast_to_filtered_connections h message test now =
    if not h.broadcaster.running then some h else do
      done ← send_matching (λ c. test c.filters) message now h.table.connections
      some (with_sent h (done.0, count_values (λ c. test c.filters) h.table.connections))

module _ (to_json : WebSocketMessage → String) where
  unfoldable pub broadcast_with_advanced_routing : Hub → WebSocketMessage → Clock → Option Hub
  unfolding send_now should_receive_message
  broadcast_with_advanced_routing h m now =
      if not h.broadcaster.running
      then some h
      else send_now (λ c. should_receive_message c.filters m) h (to_json m) now

  unfoldable pub send_to_matching_connections :
      Hub → WebSocketMessage → (ConnectionFilters → WebSocketMessage → Bool) → Clock → Option Hub
  unfolding send_now
  send_to_matching_connections h m matcher now =
      if not h.broadcaster.running
      then some h
      else send_now (λ c. matcher c.filters m) h (to_json m) now

abbrev pub put_back : Hub → String → Connection → Hub
put_back h id c = record h {
  table = record h.table { connections = insert id c h.table.connections };
}

sent_one : Hub → String → String → Clock → Option Connection → Option Hub
unfolding update_stats
sent_one h id message now none = some h
sent_one h id message now (some c) =
    if c.is_open
    then elim (send c message now) [
      | none ↦ none
      | some d ↦ some (put_back (record h { broadcaster = update_stats h.broadcaster 1 }) id d)
    ]
    else some h

unfoldable pub send_to_connection : Hub → String → String → Clock → Option Hub
unfolding sent_one
send_to_connection h id message now =
    if not h.broadcaster.running
    then some h
    else sent_one h id message now (get_connection h.table id)

-- What the filter calls do to the connection if it is there and open.
unfoldable pub changed_in : (Connection → Connection) → Hub → String → Option Connection → Hub
changed_in change h id none = h
changed_in change h id (some c) = if c.is_open then put_back h id (change c) else h

unfoldable pub on_connection : (Connection → Connection) → Hub → String → Hub
unfolding changed_in
on_connection change h id = changed_in change h id (get_connection h.table id)

unfoldable pub filters_in : Option Connection → ConnectionFilters
filters_in none = no_filters
filters_in (some c) = if c.is_open then c.filters else no_filters

unfoldable pub get_connection_filters : Hub → String → ConnectionFilters
unfolding filters_in
get_connection_filters h id = filters_in (get_connection h.table id)

tested_in : WebSocketMessage → Option Connection → Bool
tested_in m none = false
tested_in m (some c) = if c.is_open then should_receive_message c.filters m else false

unfoldable pub test_connection_filter : Hub → String → WebSocketMessage → Bool
unfolding tested_in
test_connection_filter h id m = tested_in m (get_connection h.table id)

unfoldable pub get_connections_for_job : Hub → String → List String
get_connections_for_job h job_id =
    get_connection_ids_by_filter h.table (λ c. should_receive_job c.filters job_id)

unfoldable pub get_connections_for_message_type : Hub → MessageType → List String
get_connections_for_message_type h t =
    get_connection_ids_by_filter h.table (λ c. should_receive_message_type c.filters t)

unfoldable pub get_connections_for_log_level : Hub → String → List String
get_connections_for_log_level h level =
    get_connection_ids_by_filter h.table (λ c. should_receive_log_level c.filters level)

abbrev count_in : (Connection → Bool) → List Connection → ℕ
count_in test [] = 0
count_in test (c ∷ cs) = let n = count_in test cs in if test c then suc n else n

unfoldable pub get_filtered_connection_count : Hub → ℕ
get_filtered_connection_count h =
    count_in
      (λ c.
        not (is_empty c.filters.job_ids)
        || not (is_empty c.filters.message_types)
        || not (is_empty c.filters.log_levels))
      (get_active_connections h.table)

unfoldable pub get_unfiltered_connection_count : Hub → ℕ
get_unfiltered_connection_count h =
    count_in
      (λ c.
        is_empty c.filters.job_ids
        && is_empty c.filters.message_types
        && is_empty c.filters.log_levels)
      (get_active_connections h.table)

-- The entry at a position is taken out of a queue with at least one entry.
taken : ℕ → QueuedMessage → List QueuedMessage → QueuedMessage × List QueuedMessage
taken zero m q = (m, q)
taken (suc n) m [] = (m, [])
taken (suc n) m (k ∷ q) = let (t, rest) = taken n k q in (t, m ∷ rest)

unfoldable pub process_queued_message : Hub → QueuedMessage → Clock → Option Hub
unfolding broadcast_message broadcast_log_message broadcast_by_message_type
process_queued_message h m now = elim m.message_type [
  | system_notification ↦ broadcast_message h m.message now
  | job_log_message ↦ broadcast_log_message h m.message m.job_id m.log_level now
  | _ ↦ broadcast_by_message_type h m.message m.message_type m.job_id now
]

unfoldable pub process_batch : Hub → List QueuedMessage → Clock → Option Hub
unfolding process_queued_message
process_batch h [] now = some h
process_batch h (m ∷ batch) now = process_queued_message h m now >>= λ k. process_batch k batch now

module _ (top : List QueuedMessage → ℕ) where
  -- `n` times `top` and `pop`: the batch, and what is left.
  pop_batch : ℕ → List QueuedMessage → List QueuedMessage × List QueuedMessage
  unfolding taken
  pop_batch zero q = ([], q)
  pop_batch (suc n) [] = ([], [])
  pop_batch (suc n) (m ∷ q) =
      let (t, rest) = taken (top (m ∷ q)) m q in
      let (batch, left) = pop_batch n rest in (t ∷ batch, left)

  -- A round of `processMessageQueue`, and of the loop of `flushQueue`.
  unfoldable pub round : Hub → Clock → Option Hub
  unfolding pop_batch process_batch
  round h now =
      let b = h.broadcaster in
      let size = min b.config.batch_size (length b.message_queue) in
      let (batch, left) = pop_batch size b.message_queue in
      process_batch
        (record h {
          broadcaster = record b {
            message_queue = left;
            stats = record b.stats { current_queue_size = length left };
          };
        })
        batch now

  -- `processMessageQueue` in a number of rounds.
  unfoldable pub process_message_queue : ℕ → Hub → Clock → Option Hub
  unfolding round
  process_message_queue zero h now = some h
  process_message_queue (suc n) h now =
      if not h.broadcaster.running
      then some h
      else (round h now >>= λ k. process_message_queue n k now)

  -- `flushQueue` in at most so many rounds; the second result tells whether it has returned.
  unfoldable pub flush_queue : ℕ → Hub → Clock → Option (Hub × Bool)
  unfolding round
  flush_queue zero h now = some (h, false)
  flush_queue (suc n) h now =
      let b = h.broadcaster in
      let next = (round h now >>= λ k. flush_queue n k now) in
      if not b.config.enable_async_processing
      then some (h, true)
      else if is_empty b.message_queue
      then some (
        record h { broadcaster = record b { stats = record b.stats { current_queue_size = 0 } } },
        true,
      )
      else next
