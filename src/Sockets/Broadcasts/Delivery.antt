-- ===== src/Sockets/Broadcasts/Delivery.antt =====
-- Who receives a message that src/message_broadcaster.cpp does not queue.
use rclabs_api.Prelude.{
  ℕ, suc, ◌+◌, ◌≡◌, refl, ◌∙◌, String, str_eq, Bool, true, false, not, ◌&&◌, Option, none, some, [],
  ◌∷◌, Dict, lookup, count_values, arith, if◌then◌else◌,
}
use rclabs_api.Monitoring.Names.{MessageType, job_log_message}
use rclabs_api.Sockets.Connection.{Clock, Connection, send, send_open, should_receive_for}
use rclabs_api.Sockets.Broadcasts.{
  QueuedMessage, Hub, queued, send_matching, sent_to, send_now, with_sent, update_stats,
  is_queue_full, queue_or_send, broadcast_message, broadcast_log_message, broadcast_by_message_type,
}

-- The connection after a message, if it is open and passes the test.
abbrev pub reached : (Connection → Bool) → String → Clock → Connection → Connection
reached test message now c = if c.is_open && test c then send_open c message now else c

pub all_reached : (Connection → Bool) → String → Clock → Dict Connection → Dict Connection
all_reached test message now [] = []
all_reached test message now ((id, c) ∷ rest) =
    (id, reached test message now c) ∷ all_reached test message now rest

send-open :
    (c : Connection) (message : String) (now : Clock)
    → c.is_open ≡ true
    → send c message now ≡ some (send_open c message now)
unfolding send
send-open c message now up = ground arith

sent_to_lem :
    (up wanted : Bool) (id : String) (c : Connection) (message : String) (now : Clock)
    → (rest : Dict Connection) (n : ℕ) → c.is_open ≡ up
    → sent_to (up && wanted) id c message now (rest, n)
      ≡ some (
        (id, if up && wanted then send_open c message now else c) ∷ rest,
        if up && wanted then suc n else n,
      )
unfolding sent_to
sent_to_lem true true id c message now rest n e = rw (send-open c message now e) refl
sent_to_lem true false id c message now rest n e = refl
sent_to_lem false wanted id c message now rest n e = refl

send_matching_lem :
    (test : Connection → Bool) (message : String) (now : Clock) (d : Dict Connection)
    → send_matching test message now d
      ≡ some (all_reached test message now d, count_values (λ c. c.is_open && test c) d)
unfolding send_matching all_reached count_values
send_matching_lem test message now [] = refl
send_matching_lem test message now ((id, c) ∷ rest) = rw (send_matching_lem test message now rest) (
    sent_to_lem c.is_open (test c) id c message now (all_reached test message now rest)
      (count_values (λ k. k.is_open && test k) rest) refl)

abbrev pub reached_in : (Connection → Bool) → String → Clock → Option Connection → Option Connection
reached_in test message now none = none
reached_in test message now (some c) = some (reached test message now c)

lookup-all_reached :
    (test : Connection → Bool) (message : String) (now : Clock) (id : String) (d : Dict Connection)
    → lookup id (all_reached test message now d) ≡ reached_in test message now (lookup id d)
unfolding lookup all_reached
lookup-all_reached test message now id [] = refl
lookup-all_reached test message now id ((j, c) ∷ rest) =
    picked (str_eq j id) _ (lookup id rest) (lookup-all_reached test message now id rest)
  where
    picked :
        (b : Bool) (x : Option Connection) (y : Option Connection)
        → x ≡ reached_in test message now y
        → (if b then some (reached test message now c) else x)
          ≡ reached_in test message now (if b then some c else y)
    picked true x y e = refl
    picked false x y e = e

-- Every connection that is open and passes the test is sent the message, the others are as
-- before, and the message is counted once for each that it was sent to.
pub record Delivered (test : Connection → Bool) (h : Hub) (message : String) (now : Clock) (k : Hub)
    : Type 0 where
  pub connection :
      (id : String)
      → lookup id k.table.connections ≡ reached_in test message now (lookup id h.table.connections)
  pub sent :
      k.broadcaster.stats.total_messages_sent
      ≡ h.broadcaster.stats.total_messages_sent
        + count_values (λ c. c.is_open && test c) h.table.connections
  pub queue : k.broadcaster.message_queue ≡ h.broadcaster.message_queue

abbrev pub Delivers : (Connection → Bool) → Hub → String → Clock → Option Hub → Type 0
Delivers test h message now result = (k : Hub) × (result ≡ some k) × Delivered test h message now k

pub send_now-Delivers :
    (test : Connection → Bool) (h : Hub) (message : String) (now : Clock)
    → Delivers test h message now (send_now test h message now)
unfolding send_now with_sent update_stats
send_now-Delivers test h message now =
    let d = h.table.connections in
    (
      with_sent h (all_reached test message now d, count_values (λ c. c.is_open && test c) d),
      rw (send_matching_lem test message now d) refl,
      record {
        connection = λ id. lookup-all_reached test message now id d;
        sent = refl;
        queue = refl;
      },
    )

immediate :
    (running async full : Bool) (h : Hub) (x y : Option Hub)
    → running ≡ true
    → async ≡ false
    → (if not running then some h else (if async && not full then x else y)) ≡ y
immediate true false full h x y r a = refl
immediate true true full h x y r a = absurd (ground (arith, a))
immediate false _ full h x y r a = absurd (ground (arith, r))

-- Without asynchronous processing, a running broadcaster sends a broadcast to every open
-- connection, and a log message or a message of a type to every open connection whose filters
-- accept it, counts each once, and leaves every other connection and the queue as they are.
pub broadcasts-Delivers :
    (h : Hub) (message : String) (t : MessageType) (job_id level : String) (now : Clock)
    → h.broadcaster.running ≡ true
    → h.broadcaster.config.enable_async_processing ≡ false
    → Delivers (λ c. true) h message now (broadcast_message h message now)
      × Delivers
          (λ c. should_receive_for c job_log_message job_id level)
          h
          message
          now
          (broadcast_log_message h message job_id level now)
      × Delivers
          (λ c. should_receive_for c t job_id "")
          h
          message
          now
          (broadcast_by_message_type h message t job_id now)
unfolding broadcast_message broadcast_log_message broadcast_by_message_type queue_or_send
broadcasts-Delivers h message t job_id level now running sync =
    (at_once _ _, at_once _ _, at_once _ _)
  where
    at_once :
        (test : Connection → Bool) (m : QueuedMessage)
        → Delivers test h message now (
            if not h.broadcaster.running
            then some h
            else (if h.broadcaster.config.enable_async_processing
                  && not (is_queue_full h.broadcaster)
                then some (record h { broadcaster = queued h.broadcaster m })
                else send_now test h message now))
    at_once test m =
        let (k, e, d) = send_now-Delivers test h message now in
        (
          k,
          immediate h.broadcaster.running h.broadcaster.config.enable_async_processing
                (is_queue_full h.broadcaster) h _ (send_now test h message now) running sync
              ∙ e,
          d,
        )
