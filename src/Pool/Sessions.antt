-- ===== src/Pool/Sessions.antt =====
-- The part of PooledSession (src/pooled_session.cpp) that its pool sees. Timers, buffers and the
-- handling of requests are not modelled.
use rclabs_api.Prelude.{ℕ, Bool, true, false, not, ◌&&◌, if◌then◌else◌}

pub record Session : Type 0 where
  pub socket : ℕ
  pub idle_flag : Bool
  pub processing_request : Bool
  pub last_activity : ℕ

unfoldable pub open_session : ℕ → ℕ → Session
open_session socket now = record {
  socket = socket;
  idle_flag = false;
  processing_request = false;
  last_activity = now;
}

unfoldable pub update_last_activity : Session → ℕ → Session
update_last_activity s now = record s { last_activity = now }

unfoldable pub set_idle : Session → Bool → ℕ → Session
unfolding update_last_activity
set_idle s idle now =
    let marked = record s { idle_flag = idle } in
    if idle then update_last_activity marked now else marked

unfoldable pub is_idle : Session → Bool
is_idle s = s.idle_flag && not s.processing_request

-- `reset` cancels the timers and clears the buffers too.
unfoldable pub reset : Session → ℕ → Session
unfolding set_idle
reset s now =
    let cleared = record s { processing_request = false; idle_flag = false } in
    set_idle (update_last_activity cleared now) true now

unfoldable pub run : Session → ℕ → Session
unfolding set_idle
run s now = set_idle (update_last_activity s now) false now

unfoldable pub do_close : Session → Session
do_close s = record s { idle_flag = false; processing_request = false }

-- `handleTimeout("CONNECTION")`
unfoldable pub handle_connection_timeout : Session → Session
unfolding do_close
handle_connection_timeout s = do_close s

-- `onWrite` of a response that keeps the connection open, with no error.
unfoldable pub on_write : Session → ℕ → Session
unfolding set_idle
on_write s now = set_idle (record s { last_activity = now; processing_request = false }) true now
