-- ===== src/Sockets/Connection/Sending.antt =====
-- What becomes of a text that is sent on a connection of src/websocket_connection.cpp.
use rclabs_api.Prelude.{
  suc, ◌⊎◌, inl, inr, Bool-cases, ◌≡◌, refl, sym, ap, ◌∙◌, String, Bool, true, false, not, Option,
  none, some, List, [], ◌∷◌, ◌>>=◌, ◌&&◌, arith,
}
use rclabs_api.Breaker.{on_success}
use rclabs_api.Recovery.States.{ConnectionRecoveryConfig}
use rclabs_api.Monitoring.Filters.{ConnectionFilters, is_empty}
use rclabs_api.Sockets.Connection.{
  Clock, Connection, new_connection, send, send_closed, send_open, lock_queue, unlock_queue,
  write_locked, do_write, make_room, queue_message, run_posted, on_accept, stop_heartbeat,
  start_heartbeat, on_heartbeat_received, set_recovery_config, SocketError, timed_out,
  should_attempt_recovery, attempt_recovery, give_up, handle_error, on_read, on_write, do_close,
  check_heartbeat_timeout, change_filters,
}

-- What can happen to a connection: a call from outside, the executor's next task, or the result of
-- an operation on the socket. The Boolean tells whether the manager lives.
pub data Event : Type 0 where
  sends : String → Clock → Event
  runs accepts closes : Event
  reads writes : Option SocketError → Bool → Clock → Event
  beats : Bool → Clock → Event
  configures : ConnectionRecoveryConfig → Clock → Event
  filters_change : (ConnectionFilters → ConnectionFilters) → Event

abbrev first : Option (Connection × Bool) → Option Connection
first none = none
first (some (c, _)) = some c

unfoldable pub happen : Connection → Event → Option Connection
unfolding send run_posted on_accept do_close on_read on_write check_heartbeat_timeout
    set_recovery_config change_filters
happen c (sends message now) = send c message now
happen c runs = run_posted c
happen c accepts = some (on_accept c)
happen c closes = some (do_close c).0
happen c (reads result manager now) = first (on_read c result manager now)
happen c (writes result manager now) = first (on_write c result manager now)
happen c (beats manager now) = first (check_heartbeat_timeout c manager now)
happen c (configures config now) = some (set_recovery_config c config now)
happen c (filters_change change) = some (change_filters change c)

unfoldable pub happens : Connection → List Event → Option Connection
unfolding happen
happens c [] = some c
happens c (e ∷ es) = happen c e >>= λ d. happens d es

-- No write is under way, the mutex is free, and nothing was ever handed to the socket.
idle : Connection → Bool
idle c = not c.is_writing && not c.queue_locked && is_empty c.written

-- Undefined, or idle.
kept : Option Connection → Bool
kept none = true
kept (some c) = idle c

send-kept :
    (c : Connection) (message : String) (now : Clock)
    → idle c ≡ true
    → kept (send c message now) ≡ true
unfolding send send_closed send_open kept idle
send-kept c message now i = ground arith

do_write-kept : (c : Connection) → idle c ≡ true → kept (do_write c) ≡ true
unfolding do_write write_locked lock_queue unlock_queue kept idle
do_write-kept c i = ground arith

run_posted-kept : (c : Connection) → idle c ≡ true → kept (run_posted c) ≡ true
unfolding run_posted queue_message make_room do_write write_locked lock_queue unlock_queue kept idle
run_posted-kept c i = ground arith

handle_error-kept :
    (c : Connection) (ec : SocketError) (manager : Bool) (now : Clock)
    → idle c ≡ true
    → kept (first (handle_error c ec manager now)) ≡ true
unfolding handle_error should_attempt_recovery attempt_recovery give_up stop_heartbeat kept idle
handle_error-kept c ec manager now i = ground arith

happen-kept : (c : Connection) (e : Event) → idle c ≡ true → kept (happen c e) ≡ true
unfolding happen on_accept do_close on_read on_write on_heartbeat_received check_heartbeat_timeout
    set_recovery_config start_heartbeat stop_heartbeat change_filters kept idle
happen-kept c (sends message now) i = send-kept c message now i
happen-kept c runs i = run_posted-kept c i
happen-kept c accepts i = i
happen-kept c closes i = ground arith
happen-kept c (reads none manager now) i = ground arith
happen-kept c (reads (some ec) manager now) i = ground (arith, handle_error-kept c ec manager now i)
happen-kept c (writes none manager now) i =
    ground (arith, do_write-kept (record c { circuit_breaker = on_success c.circuit_breaker }) i)
happen-kept c (writes (some ec) manager now) i = handle_error-kept c ec manager now i
happen-kept c (beats manager now) i = ground (
  arith,
  handle_error-kept
      (record c {
        recovery_state = record c.recovery_state {
          missed_heartbeats = suc c.recovery_state.missed_heartbeats;
        };
      })
      timed_out manager now i,
)
happen-kept c (configures config now) i = ground arith
happen-kept c (filters_change change) i = i

then_kept :
    (o : Option Connection) (f : Connection → Option Connection)
    → kept o ≡ true
    → ((d : Connection) → idle d ≡ true → kept (f d) ≡ true)
    → kept (o >>= f) ≡ true
unfolding kept
then_kept none f k g = refl
then_kept (some d) f k g = g d k

happens-kept : (es : List Event) (c : Connection) → idle c ≡ true → kept (happens c es) ≡ true
unfolding happens kept
happens-kept [] c i = i
happens-kept (e ∷ es) c i =
    then_kept (happen c e) (λ d. happens d es) (happen-kept c e i) (λ d j. happens-kept es d j)

-- The posted task locks the mutex of the queue and calls doWrite, which locks it again.
queue_message-undefined :
    (c : Connection) (message : String)
    → idle c ≡ true
    → c.is_open ≡ true
    → queue_message c message ≡ none
unfolding queue_message make_room do_write write_locked lock_queue unlock_queue idle
queue_message-undefined c message i up = ground arith

run_posted-undefined :
    (c : Connection) → idle c ≡ true → (c.posted ≡ []) ⊎ (c.is_open ≡ false) ⊎ (run_posted c ≡ none)
unfolding run_posted idle
run_posted-undefined c i = elim (Bool-cases c.is_open) [
  | inr shut ↦ inr (inl shut)
  | inl up ↦ waiting c.posted refl up
]
  where
    waiting :
        (p : List String)
        → c.posted ≡ p
        → c.is_open ≡ true
        → (c.posted ≡ []) ⊎ (c.is_open ≡ false) ⊎ (run_posted c ≡ none)
    waiting [] e up = inl e
    waiting (m ∷ rest) e up =
        inr (inr (ground (arith, queue_message-undefined (record c { posted = rest }) m i up)))

-- Whatever happens to a new connection, as long as nothing undefined has happened, no text was
-- ever handed to the socket; and the executor's next task on the open connection is undefined.
pub nothing_written :
    (id : String) (es : List Event) (c : Connection)
    → happens (new_connection id) es ≡ some c
    → (c.written ≡ []) × ((c.posted ≡ []) ⊎ (c.is_open ≡ false) ⊎ (run_posted c ≡ none))
unfolding kept idle new_connection
nothing_written id es c e =
    let k : idle c ≡ true = sym (ap kept e) ∙ happens-kept es (new_connection id) (fresh id) in
    (empty k, run_posted-undefined c k)
  where
    fresh : (i : String) → idle (new_connection i) ≡ true
    fresh i = refl

    empty : idle c ≡ true → c.written ≡ []
    empty k = ground arith
