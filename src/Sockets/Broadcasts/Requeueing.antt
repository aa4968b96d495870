-- ===== src/Sockets/Broadcasts/Requeueing.antt =====
-- What the worker threads of src/message_broadcaster.cpp do with the queued messages.
use rclabs_api.Prelude.{
  ℕ, zero, suc, ◌+◌, ◌≤◌, ◌<◌, min, ◌≡◌, refl, ◌∙◌, Bool, true, false, not, Option, some, ◌>>=◌,
  List, [], ◌∷◌, length, length-append, dec_lt, ◌⊎◌, inl, inr, arith, if◌then◌else◌,
}
use rclabs_api.Monitoring.Names.{
  MessageType, job_status_update, job_progress_update, job_log_message, job_metrics_update,
  system_notification, connection_ack, error_message,
}
use rclabs_api.Monitoring.Filters.{is_empty}
use rclabs_api.Sockets.Connection.{Clock, Connection}
use rclabs_api.Sockets.Broadcasts.{
  QueuedMessage, Hub, is_queue_full, queued, queue_or_send, broadcast_message,
  broadcast_log_message, broadcast_by_message_type, taken, process_queued_message, process_batch,
  pop_batch, round, process_message_queue, flush_queue,
}

-- Running, with asynchronous processing.
pub record IsAsync (h : Hub) : Type 0 where
  pub running : h.broadcaster.running ≡ true
  pub async : h.broadcaster.config.enable_async_processing ≡ true

-- From `h` to `k`, `n` messages are queued and nothing is sent.
pub record Requeued (h : Hub) (n : ℕ) (k : Hub) : Type 0 where
  pub table : k.table ≡ h.table
  pub size : length k.broadcaster.message_queue ≡ length h.broadcaster.message_queue + n
  pub limit : k.broadcaster.config.max_queue_size ≡ h.broadcaster.config.max_queue_size
  pub sent : k.broadcaster.stats.total_messages_sent ≡ h.broadcaster.stats.total_messages_sent
  pub on : IsAsync k

Requeues : Hub → ℕ → Option Hub → Type 0
Requeues h n result = (k : Hub) × (result ≡ some k) × Requeued h n k

queued-Requeued :
    (h : Hub) (m : QueuedMessage)
    → IsAsync h
    → Requeued h 1 (record h { broadcaster = queued h.broadcaster m })
unfolding queued
queued-Requeued h m a = record {
  table = refl;
  size = length-append h.broadcaster.message_queue (m ∷ []);
  limit = refl;
  sent = refl;
  on = record { running = a.running; async = a.async };
}

queue_or_send-queued :
    (test : Connection → Bool) (h : Hub) (m : QueuedMessage) (now : Clock)
    → IsAsync h
    → length h.broadcaster.message_queue < h.broadcaster.config.max_queue_size
    → queue_or_send test h m now ≡ some (record h { broadcaster = queued h.broadcaster m })
unfolding queue_or_send is_queue_full
queue_or_send-queued test h m now a room = ground (arith, a.async)

queue_or_send-Requeues :
    (test : Connection → Bool) (h : Hub) (m : QueuedMessage) (now : Clock)
    → IsAsync h
    → length h.broadcaster.message_queue < h.broadcaster.config.max_queue_size
    → Requeues h 1 (queue_or_send test h m now)
unfolding Requeues
queue_or_send-Requeues test h m now a room = (
  record h { broadcaster = queued h.broadcaster m },
  queue_or_send-queued test h m now a room,
  queued-Requeued h m a,
)

while_running :
    (h : Hub) (running : Bool) (result : Option Hub)
    → running ≡ true
    → Requeues h 1 result
    → Requeues h 1 (if not running then some h else result)
while_running h true result e r = r
while_running h false result e r = absurd (ground (arith, e))

process_queued_message-Requeues :
    (h : Hub) (m : QueuedMessage) (now : Clock)
    → IsAsync h
    → length h.broadcaster.message_queue < h.broadcaster.config.max_queue_size
    → Requeues h 1 (process_queued_message h m now)
unfolding process_queued_message broadcast_message broadcast_log_message broadcast_by_message_type
process_queued_message-Requeues h m now a room = by_type m.message_type
  where
    call :
        (test : Connection → Bool) (k : QueuedMessage)
        → Requeues h 1 (if not h.broadcaster.running then some h else queue_or_send test h k now)
    call test k =
        while_running h h.broadcaster.running (queue_or_send test h k now) a.running
          (queue_or_send-Requeues test h k now a room)

    by_type :
        (t : MessageType)
        → Requeues h 1 (elim t [
          | system_notification ↦ broadcast_message h m.message now
          | job_log_message ↦ broadcast_log_message h m.message m.job_id m.log_level now
          | _ ↦ broadcast_by_message_type h m.message m.message_type m.job_id now
        ])
    by_type system_notification = call _ _
    by_type job_log_message = call _ _
    by_type job_status_update = call _ _
    by_type job_progress_update = call _ _
    by_type job_metrics_update = call _ _
    by_type connection_ack = call _ _
    by_type error_message = call _ _

Requeued-then :
    (h k l : Hub) (m n p : ℕ) → Requeued h m k → Requeued k n l → p ≡ m + n → Requeued h p l
Requeued-then h k l m n p r s e = record {
  table = s.table ∙ r.table;
  size = omega (arith, r.size, s.size);
  limit = s.limit ∙ r.limit;
  sent = s.sent ∙ r.sent;
  on = s.on;
}

process_batch-Requeues :
    (h : Hub) (batch : List QueuedMessage) (now : Clock)
    → IsAsync h
    → length h.broadcaster.message_queue + length batch ≤ h.broadcaster.config.max_queue_size
    → Requeues h (length batch) (process_batch h batch now)
unfolding process_batch Requeues
process_batch-Requeues h [] now a room =
    (h, refl, record { table = refl; size = omega arith; limit = refl; sent = refl; on = a })
process_batch-Requeues h (m ∷ batch) now a room =
    let (k, e, r) = process_queued_message-Requeues h m now a (omega arith) in
    let (l, f, s) = process_batch-Requeues k batch now r.on (omega (arith, r.size, r.limit)) in
    (l, rw e f, Requeued-then h k l 1 (length batch) _ r s (omega arith))

length-taken :
    (n : ℕ) (m : QueuedMessage) (q : List QueuedMessage) → length (taken n m q).1 ≡ length q
unfolding taken
length-taken zero m q = refl
length-taken (suc n) m [] = refl
length-taken (suc n) m (k ∷ q) = omega (arith, length-taken n k q)

module _ (top : List QueuedMessage → ℕ) where
  length-pop_batch :
      (n : ℕ) (q : List QueuedMessage)
      → n ≤ length q
      → (length (pop_batch top n q).0 ≡ n) × (length (pop_batch top n q).1 + n ≡ length q)
  unfolding pop_batch
  length-pop_batch zero q h = (refl, omega arith)
  length-pop_batch (suc n) [] h = absurd (omega arith)
  length-pop_batch (suc n) (m ∷ q) h =
      let e = length-taken (top (m ∷ q)) m q in
      let (batch, left) = length-pop_batch n (taken (top (m ∷ q)) m q).1 (omega (arith, e)) in
      (omega (arith, batch), omega (arith, left, e))

  -- A round takes a batch out and puts it back.
  round-Requeues :
      (h : Hub) (now : Clock)
      → IsAsync h
      → length h.broadcaster.message_queue ≤ h.broadcaster.config.max_queue_size
      → Requeues h 0 (round top h now)
  unfolding round Requeues
  round-Requeues h now a room =
      let b = h.broadcaster in
      let size = min b.config.batch_size (length b.message_queue) in
      let (batch, left) = length-pop_batch size b.message_queue (omega arith) in
      let popped : Hub = record h {
        broadcaster = record b {
          message_queue = (pop_batch top size b.message_queue).1;
          stats = record b.stats {
            current_queue_size = length (pop_batch top size b.message_queue).1;
          };
        };
      } in
      let (k, e, r) =
        process_batch-Requeues popped (pop_batch top size b.message_queue).0 now
          (record { running = a.running; async = a.async }) (omega (arith, batch, left)) in
      (
        k,
        e,
        record {
          table = r.table;
          size = omega (arith, r.size, batch, left);
          limit = r.limit;
          sent = r.sent;
          on = r.on;
        },
      )

  process_message_queue-Requeues :
      (n : ℕ) (h : Hub) (now : Clock)
      → IsAsync h
      → length h.broadcaster.message_queue ≤ h.broadcaster.config.max_queue_size
      → Requeues h 0 (process_message_queue top n h now)
  unfolding process_message_queue Requeues
  process_message_queue-Requeues zero h now a room =
      (h, refl, record { table = refl; size = omega arith; limit = refl; sent = refl; on = a })
  process_message_queue-Requeues (suc n) h now a room =
      let (k, e, r) = round-Requeues h now a room in
      let (l, f, s) =
        process_message_queue-Requeues n k now r.on (omega (arith, r.size, r.limit)) in
      (
        l,
        running_on h.broadcaster.running (process_message_queue top n) a.running e f,
        Requeued-then h k l 0 0 0 r s (omega arith),
      )
    where
      running_on :
          (b : Bool) (g : Hub → Clock → Option Hub) {k l : Hub}
          → b ≡ true
          → round top h now ≡ some k
          → g k now ≡ some l
          → (if not b then some h else (round top h now >>= λ j. g j now)) ≡ some l
      running_on true g t e f = rw e f
      running_on false g t e f = absurd (ground (arith, t))

  flush_queue-Requeues :
      (n : ℕ) (h : Hub) (now : Clock)
      → IsAsync h
      → length h.broadcaster.message_queue ≤ h.broadcaster.config.max_queue_size
      → 0 < length h.broadcaster.message_queue
      → (k : Hub) × (flush_queue top n h now ≡ some (k, false)) × Requeued h 0 k
  unfolding flush_queue Requeues
  flush_queue-Requeues zero h now a room some_left =
      (h, refl, record { table = refl; size = omega arith; limit = refl; sent = refl; on = a })
  flush_queue-Requeues (suc n) h now a room some_left =
      let (k, e, r) = round-Requeues h now a room in
      let (l, f, s) =
        flush_queue-Requeues n k now r.on (omega (arith, r.size, r.limit))
          (omega (arith, r.size)) in
      (
        l,
        flushing h.broadcaster.config.enable_async_processing h.broadcaster.message_queue
            (flush_queue top n) a.async some_left e f,
        Requeued-then h k l 0 0 0 r s (omega arith),
      )
    where
      flushing :
          (b : Bool) (q : List QueuedMessage) (g : Hub → Clock → Option (Hub × Bool)) {k l : Hub}
          → b ≡ true
          → 0 < length q
          → round top h now ≡ some k
          → g k now ≡ some (l, false)
          → (if not b
              then some (h, true)
              else if is_empty q
              then some (
                record h {
                  broadcaster = record h.broadcaster {
                    stats = record h.broadcaster.stats { current_queue_size = 0 };
                  };
                },
                true,
              )
              else (round top h now >>= λ j. g j now))
            ≡ some (l, false)
      flushing false q g on some_left e f = absurd (ground (arith, on))
      flushing true [] g on some_left e f = absurd (omega (arith, some_left))
      flushing true (m ∷ q) g on some_left e f = rw e f

  -- While messages are processed asynchronously and the queue is within its limit, the worker
  -- threads, in any number of rounds, send nothing: the table of connections and the number of
  -- messages sent stay what they are, and as many messages stay queued. flushQueue does no better
  -- and has not returned after any number of rounds unless the queue was empty.
  pub queue-never_sent :
      (n : ℕ) (h : Hub) (now : Clock)
      → IsAsync h
      → length h.broadcaster.message_queue ≤ h.broadcaster.config.max_queue_size
      → ((k : Hub) × (process_message_queue top n h now ≡ some k) × Requeued h 0 k)
        × ((length h.broadcaster.message_queue ≡ 0)
            ⊎ ((k : Hub) × (flush_queue top n h now ≡ some (k, false)) × Requeued h 0 k))
  unfolding Requeues
  queue-never_sent n h now a room = (
    process_message_queue-Requeues n h now a room,
    elim (dec_lt 0 (length h.broadcaster.message_queue)) [
      | yes some_left ↦ inr (flush_queue-Requeues n h now a room some_left)
      | no none_left ↦ inl (omega (arith, none_left))
    ],
  )
