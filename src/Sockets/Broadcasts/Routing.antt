-- ===== src/Sockets/Broadcasts/Routing.antt =====
-- The two ways of src/message_broadcaster.cpp to route a message: by its type, job and level, or
-- by the message itself.
use rclabs_api.Prelude.{
  ℕ, ◌≡◌, refl, ap, ◌∙◌, ◌≢◌, String, str_eq, eq_iff, Bool, true, false, not, ◌&&◌, Option, some,
  Bool-cases, inl, inr, arith, if◌then◌else◌,
}
use rclabs_api.Monitoring.Names.{job_status_update, job_log_message}
use rclabs_api.Monitoring.Messages.{
  JobStatusUpdate, LogMessage, WebSocketMessage, create_job_status_update, create_log_message,
}
use rclabs_api.Monitoring.Filters.{should_receive_message}
use rclabs_api.Sockets.Connection.{Clock, Connection, should_receive_for}
use rclabs_api.Sockets.Broadcasts.{
  Hub, is_queue_full, send_now, queue_or_send, broadcast_log_message, broadcast_by_message_type,
  broadcast_job_update, broadcast_with_advanced_routing,
}

not_empty : (s : String) → s ≢ "" → str_eq s "" ≡ false
not_empty s n = elim (Bool-cases (str_eq s "")) [
  | inl e ↦ absurd (n ((eq_iff s "").0 e))
  | inr e ↦ e
]

update-test :
    (u : JobStatusUpdate) (json : String) (created : ℕ) (c : Connection)
    → u.job_id ≢ ""
    → should_receive_message c.filters (create_job_status_update u json created)
      ≡ should_receive_for c job_status_update u.job_id ""
unfolding should_receive_for should_receive_message create_job_status_update
update-test u json created c n = rw (not_empty u.job_id n) refl

log-test :
    (l : LogMessage) (json : String) (created : ℕ) (c : Connection)
    → l.job_id ≢ ""
    → l.level ≢ ""
    → should_receive_message c.filters (create_log_message l json created)
      ≡ should_receive_for c job_log_message l.job_id l.level
unfolding should_receive_for should_receive_message create_log_message
log-test l json created c n o = rw (not_empty l.job_id n, not_empty l.level o) refl

same_route :
    (running async full : Bool) (h : Hub) (x y z : Option Hub)
    → async ≡ false
    → z ≡ y
    → (if not running then some h else z)
      ≡ (if not running then some h else (if async && not full then x else y))
same_route true false full h x y z a e = e
same_route true true full h x y z a e = absurd (ground (arith, a))
same_route false _ full h x y z a e = refl

guard_twice :
    (running : Bool) (h : Hub) (x : Option Hub)
    → (if not running then some h else x)
      ≡ (if not running then some h else (if not running then some h else x))
guard_twice true h x = refl
guard_twice false h x = refl

send_now-same :
    (p q : Connection → Bool) (h : Hub) (message : String) (now : Clock)
    → ((c : Connection) → p c ≡ q c)
    → send_now p h message now ≡ send_now q h message now
send_now-same p q h message now e =
    ap (λ (t : Connection → Bool). send_now t h message now) (λ i c. e c i)

-- Without asynchronous processing, a status update of a job, and a log message of a job with a
-- level, reach the same connections whether they are routed by the message or by its parts.
pub routes_agree :
    (to_json : WebSocketMessage → String) (h : Hub) (u : JobStatusUpdate) (l : LogMessage)
    → (json : String) (created : ℕ) (now : Clock)
    → h.broadcaster.config.enable_async_processing ≡ false
    → u.job_id ≢ ""
    → l.job_id ≢ ""
    → l.level ≢ ""
    → (broadcast_with_advanced_routing to_json h (create_job_status_update u json created) now
        ≡ broadcast_job_update h (to_json (create_job_status_update u json created)) u.job_id now)
      × (broadcast_with_advanced_routing to_json h (create_log_message l json created) now
          ≡ broadcast_log_message h
              (to_json (create_log_message l json created))
              l.job_id
              l.level
              now)
unfolding broadcast_with_advanced_routing broadcast_job_update broadcast_by_message_type
    broadcast_log_message queue_or_send
routes_agree to_json h u l json created now sync un ln vn =
    let full = is_queue_full h.broadcaster in
    let b = h.broadcaster in
    (
      same_route b.running b.config.enable_async_processing full h _ _ _ sync
            (send_now-same _ _ h _ now (λ c. update-test u json created c un))
          ∙ guard_twice b.running h _,
      same_route b.running b.config.enable_async_processing full h _ _ _ sync
          (send_now-same _ _ h _ now (λ c. log-test l json created c ln vn)),
    )
