-- ===== src/Notifications/Queued.antt =====
-- The bounds of the lists of src/notification_service.cpp, and the distance of resource alerts.
use rclabs_api.Prelude.{
  ◌≡◌, ℕ, ◌+◌, ◌<◌, String, Bool, true, false, not, ◌&&◌, ◌||◌, leb, List, [], ◌∷◌, ◌++◌, length,
  length-append, length-drop, if◌then◌else◌, arith,
}
use rclabs_api.Recovery.Retries.{FailedNotification, get_ready_for_retry}
use rclabs_api.Notifications.Messages.{
  NotificationMessage, NotificationConfig, ResourceAlert, alert_number,
  create_resource_alert_notification, create_job_failure_notification,
  create_timeout_warning_notification, create_system_error_notification,
}
use rclabs_api.Notifications.{
  Notifier, configure, set_test_mode, start, stop, queue_notification, send_job_failure_alert,
  send_job_timeout_warning, should_send_resource_alert, record_resource_alert, send_resource_alert,
  send_system_error_alert, send_custom_notification, clear_all, add_to_recent_notifications,
  schedule_retry, process, process_queue, process_retries, process_notifications,
}

-- Once a resource alert of a type has been sent, or dropped since the queue is full, nothing happens
-- at another alert of the type within five minutes.
pub send_resource_alert-spaced :
    (s : Notifier) (i j : String) (a b : ResourceAlert) (now recorded later after : ℕ)
    → s.config.enabled ≡ true
    → s.config.resource_alerts ≡ true
    → should_send_resource_alert s a.alert_type now ≡ true
    → alert_number b.alert_type ≡ alert_number a.alert_type
    → later < recorded + 300000
    → send_resource_alert (send_resource_alert s i a now recorded) j b later after
      ≡ send_resource_alert s i a now recorded
unfolding send_resource_alert record_resource_alert queue_notification should_send_resource_alert
send_resource_alert-spaced s i j a b now recorded later after e r h same soon = ground arith

-- The queue and its maximum are at most `n`, and the recent notifications at most 1000.
abbrev pub is_within : ℕ → Notifier → Bool
is_within n s =
    leb (length s.notification_queue) n
    && leb s.config.queue_max_size n
    && leb (length s.recent_notifications) 1000

guarded-within :
    (n : ℕ) (b : Bool) (s t : Notifier)
    → is_within n s ≡ true
    → is_within n t ≡ true
    → is_within n (if b then s else t) ≡ true
guarded-within n true s t h k = h
guarded-within n false s t h k = k

queue_notification-within :
    (n : ℕ) (s : Notifier) (m : NotificationMessage)
    → is_within n s ≡ true
    → is_within n (queue_notification s m) ≡ true
unfolding queue_notification
queue_notification-within n s m h = ground (arith, length-append s.notification_queue (m ∷ []))

queued-within :
    (n : ℕ) (b : Bool) (s : Notifier) (m : NotificationMessage)
    → is_within n s ≡ true
    → is_within n (if b then s else queue_notification s m) ≡ true
queued-within n b s m h =
    guarded-within n b s (queue_notification s m) h (queue_notification-within n s m h)

-- The calls of the service.
pub data Call : Type 0 where
  fails : String → String → String → Call
  runs_long : String → String → ℕ → Call
  alerts : String → ResourceAlert → ℕ → Call
  errs : String → String → String → Call
  sends : NotificationMessage → Call
  clears : Call
  goes_round : Call
  configures : NotificationConfig → Call
  tests : Bool → Call
  starts : Call
  stops : Call

-- A configuration that is set has a queue of at most `n` messages.
abbrev pub allows : ℕ → Call → Bool
allows n (configures c) = leb c.queue_max_size n
allows n _ = true

abbrev pub all_allow : ℕ → List (Call × ℕ) → Bool
all_allow n [] = true
all_allow n ((c, now) ∷ cs) = allows n c && all_allow n cs

module _ (accepts : NotificationMessage → Bool) (blank : NotificationMessage) where
  process-within :
      (n : ℕ) (s : Notifier) (m : NotificationMessage) (reason : String) (method now : ℕ)
      → is_within n s ≡ true
      → is_within n (process accepts blank s m reason method now) ≡ true
  unfolding process add_to_recent_notifications schedule_retry
  process-within n s m reason method now h = ground (
    arith,
    length-append s.recent_notifications (m ∷ []),
    length-drop 1 (s.recent_notifications ++ m ∷ []),
  )

  process_queue-within :
      (n : ℕ) (ms : List NotificationMessage) (s : Notifier) (now : ℕ)
      → is_within n s ≡ true
      → is_within n (process_queue accepts blank s ms now) ≡ true
  unfolding process_queue
  process_queue-within n [] s now h = h
  process_queue-within n (m ∷ ms) s now h =
      process_queue-within n ms _ now (process-within n s m _ _ now h)

  process_retries-within :
      (n : ℕ) (fs : List FailedNotification) (s : Notifier) (now : ℕ)
      → is_within n s ≡ true
      → is_within n (process_retries accepts blank s fs now) ≡ true
  unfolding process_retries
  process_retries-within n [] s now h = h
  process_retries-within n (f ∷ fs) s now h =
      process_retries-within n fs _ now (process-within n s _ _ _ now h)

  process_notifications-within :
      (n : ℕ) (s : Notifier) (now : ℕ)
      → is_within n s ≡ true
      → is_within n (process_notifications accepts blank s now) ≡ true
  unfolding process_notifications
  process_notifications-within n s now h = by_running s.running
    where
      by_running :
          (b : Bool)
          → is_within n (
              if not b
              then s
              else (let (manager, ready) = get_ready_for_retry s.retry_manager now in
                  let taken = record s { notification_queue = []; retry_manager = manager } in
                  process_retries accepts blank
                    (process_queue accepts blank taken s.notification_queue now)
                    ready
                    now))
            ≡ true
      by_running false = h
      by_running true =
          let taken : Notifier = record s {
            notification_queue = [];
            retry_manager = (get_ready_for_retry s.retry_manager now).0;
          } in
          process_retries-within n (get_ready_for_retry s.retry_manager now).1 _ now
            (process_queue-within n s.notification_queue taken now (ground arith))

  call : Notifier → Call → ℕ → Notifier
  call s (fails id job_id error) now = send_job_failure_alert s id job_id error now
  call s (runs_long id job_id minutes) now = send_job_timeout_warning s id job_id minutes now
  call s (alerts id a recorded) now = send_resource_alert s id a now recorded
  call s (errs id component error) now = send_system_error_alert s id component error now
  call s (sends m) now = send_custom_notification s m
  call s clears now = clear_all s
  call s goes_round now = process_notifications accepts blank s now
  call s (configures c) now = configure s c
  call s (tests enabled) now = set_test_mode s enabled
  call s starts now = start s
  call s stops now = stop s

  unfoldable pub calls : Notifier → List (Call × ℕ) → Notifier
  unfolding call
  calls s [] = s
  calls s ((c, now) ∷ cs) = calls (call s c now) cs

  call-within :
      (n : ℕ) (s : Notifier) (c : Call) (now : ℕ)
      → allows n c ≡ true
      → is_within n s ≡ true
      → is_within n (call s c now) ≡ true
  unfolding call send_job_failure_alert send_job_timeout_warning send_resource_alert
      send_system_error_alert send_custom_notification clear_all record_resource_alert configure
      set_test_mode start stop
  call-within n s (fails id job_id error) now a h =
      queued-within n (not s.config.enabled || not s.config.job_failure_alerts) s
        (create_job_failure_notification s.config id job_id error now) h
  call-within n s (runs_long id job_id minutes) now a h =
      queued-within n (not s.config.enabled || not s.config.timeout_warnings) s
        (create_timeout_warning_notification s.config id job_id minutes now) h
  call-within n s (alerts id alert recorded) now a h =
      guarded-within n (not s.config.enabled || not s.config.resource_alerts) s _ h (
        guarded-within n (not (should_send_resource_alert s alert.alert_type now)) s
          (record_resource_alert
            (queue_notification s (create_resource_alert_notification s.config id alert))
            alert.alert_type recorded)
          h
          (queue_notification-within n s (create_resource_alert_notification s.config id alert) h))
  call-within n s (errs id component error) now a h =
      queued-within n (not s.config.enabled) s
        (create_system_error_notification s.config id component error now) h
  call-within n s (sends m) now a h = queued-within n (not s.config.enabled) s m h
  call-within n s clears now a h = ground arith
  call-within n s goes_round now a h = process_notifications-within n s now h
  call-within n s (configures c) now a h = ground arith
  call-within n s (tests enabled) now a h = h
  call-within n s starts now a h = h
  call-within n s stops now a h = h

  -- If no configuration, the first or one that is set, has a queue of more than `n` messages, then
  -- whatever calls of the service and rounds of its thread come, and at what times, the queue holds
  -- at most `n` messages, and the recent notifications are at most 1000, if it is so at the
  -- beginning.
  pub calls-within :
      (n : ℕ) (s : Notifier) (cs : List (Call × ℕ))
      → all_allow n cs ≡ true
      → is_within n s ≡ true
      → is_within n (calls s cs) ≡ true
  unfolding calls
  calls-within n s [] a h = h
  calls-within n s ((c, now) ∷ cs) a h =
      calls-within n (call s c now) cs (ground arith) (call-within n s c now (ground arith) h)
