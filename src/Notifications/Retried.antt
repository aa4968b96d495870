-- ===== src/Notifications/Retried.antt =====
-- What becomes of failed notifications in src/notification_service.cpp.
use rclabs_api.Prelude.{
  ◌≡◌, refl, ℕ, suc, ◌+◌, ◌≤◌, String, Bool, true, false, not, ltb, leb, List, [], ◌∷◌, ◌++◌,
  if◌then◌else◌, arith,
}
use rclabs_api.Recovery.Backoff.{calculate_retry_delay}
use rclabs_api.Recovery.Retries.{
  FailedNotification, add_failed_notification, get_ready_for_retry, take_ready, is_ready_for_retry,
}
use rclabs_api.Notifications.Messages.{NotificationMessage, should_retry}
use rclabs_api.Notifications.{
  Notifier, schedule_retry, deliver_notification, process, process_queue, process_retries,
  retry_message, process_notifications, run_rounds, or_same,
}

abbrev pub all_zero : List FailedNotification → Bool
all_zero [] = true
all_zero (f ∷ fs) = if leb f.retry_count 0 then all_zero fs else false

abbrev one : Bool → ℕ
one b = if b then 1 else 0

-- How many notifications have an identifier and a content with a property.
abbrev pub count_with : (String → String → Bool) → List FailedNotification → ℕ
count_with p [] = 0
count_with p (f ∷ fs) = one (p f.notification_id f.content) + count_with p fs

count_with-append :
    (p : String → String → Bool) (fs gs : List FailedNotification)
    → count_with p (fs ++ gs) ≡ count_with p fs + count_with p gs
count_with-append p [] gs = omega arith
count_with-append p (f ∷ fs) gs = omega (arith, count_with-append p fs gs)

all_zero-append :
    (fs : List FailedNotification) (f : FailedNotification)
    → all_zero (fs ++ f ∷ []) ≡ (if all_zero fs then leb f.retry_count 0 else false)
all_zero-append [] f = ground arith
all_zero-append (g ∷ fs) f = ground (arith, all_zero-append fs f)

take_ready-count_with :
    (p : String → String → Bool) (fs ready : List FailedNotification) (now : ℕ)
    → count_with p (take_ready fs ready now).0 + count_with p (take_ready fs ready now).1
      ≡ count_with p ready + count_with p fs
unfolding take_ready
take_ready-count_with p [] ready now = omega arith
take_ready-count_with p (f ∷ fs) ready now =
    by_time (is_ready_for_retry f now) (take_ready-count_with p fs (ready ++ f ∷ []) now)
  where
    by_time :
        (b : Bool)
        → count_with p (take_ready fs (ready ++ f ∷ []) now).0
            + count_with p (take_ready fs (ready ++ f ∷ []) now).1
          ≡ count_with p (ready ++ f ∷ []) + count_with p fs
        → let t : List FailedNotification × List FailedNotification =
            if b then take_ready fs (ready ++ f ∷ []) now else (ready, f ∷ fs) in
          count_with p t.0 + count_with p t.1 ≡ count_with p ready + count_with p (f ∷ fs)
    by_time true e = omega (arith, e, count_with-append p ready (f ∷ []))
    by_time false e = refl

take_ready-all_zero :
    (fs ready : List FailedNotification) (now : ℕ)
    → all_zero ready ≡ true
    → all_zero fs ≡ true
    → (all_zero (take_ready fs ready now).0 ≡ true) × (all_zero (take_ready fs ready now).1 ≡ true)
unfolding take_ready
take_ready-all_zero [] ready now h k = (h, k)
take_ready-all_zero (f ∷ fs) ready now h k = by_time (is_ready_for_retry f now) (
    take_ready-all_zero fs (ready ++ f ∷ []) now (ground (arith, all_zero-append ready f))
      (ground arith))
  where
    by_time :
        (b : Bool)
        → (all_zero (take_ready fs (ready ++ f ∷ []) now).0 ≡ true)
          × (all_zero (take_ready fs (ready ++ f ∷ []) now).1 ≡ true)
        → let t : List FailedNotification × List FailedNotification =
            if b then take_ready fs (ready ++ f ∷ []) now else (ready, f ∷ fs) in
          (all_zero t.0 ≡ true) × (all_zero t.1 ≡ true)
    by_time true z = z
    by_time false z = (h, k)

module _ (accepts : NotificationMessage → Bool) (blank : NotificationMessage)
    (p : String → String → Bool) where
  -- Nothing can be delivered, nothing that waits has been counted, and so many wait with the property.
  pub record Stuck (s : Notifier) (n : ℕ) : Type 0 where
    pub fails : (m : NotificationMessage) → deliver_notification accepts blank s m ≡ false
    pub uncounted : all_zero s.retry_manager.retry_queue ≡ true
    pub waits : n ≤ count_with p s.retry_manager.retry_queue

  abbrev waiting : Notifier → FailedNotification → Notifier
  waiting s f =
      let r = s.retry_manager in
      record s { retry_manager = record r { retry_queue = r.retry_queue ++ f ∷ [] } }

  waiting-Stuck :
      (s : Notifier) (f : FailedNotification) (n : ℕ)
      → f.retry_count ≡ 0
      → Stuck s n
      → Stuck (waiting s f) (n + one (p f.notification_id f.content))
  unfolding deliver_notification
  waiting-Stuck s f n z h = record {
    fails = h.fails;
    uncounted = ground (arith, all_zero-append s.retry_manager.retry_queue f, h.uncounted);
    waits = omega (arith, count_with-append p s.retry_manager.retry_queue (f ∷ []), h.waits);
  }

  weaker-Stuck : (s : Notifier) (m n : ℕ) → m ≤ n → Stuck s n → Stuck s m
  weaker-Stuck s m n l h = record {
    fails = h.fails;
    uncounted = h.uncounted;
    waits = omega (arith, l, h.waits);
  }

  schedule-Stuck :
      (s : Notifier) (m : NotificationMessage) (reason : String) (method now n : ℕ)
      → Stuck s n
      → Stuck
          (schedule_retry s m reason method now)
          (if should_retry m then n + one (p m.id m.message) else n)
  unfolding schedule_retry add_failed_notification calculate_retry_delay
  schedule-Stuck s m reason method now n h = by_retry (should_retry m)
    where
      by_retry :
          (b : Bool)
          → Stuck
              (if not b then s else record s {
                retry_manager = or_same s.retry_manager (
                    add_failed_notification s.retry_manager m.id "recipient" m.message reason method
                      now);
              })
              (if b then n + one (p m.id m.message) else n)
      by_retry true = waiting-Stuck s _ n refl h
      by_retry false = h

  failed-Stuck :
      (s : Notifier) (n : ℕ) → Stuck s n → Stuck (record s { failed_count = suc s.failed_count }) n
  unfolding deliver_notification
  failed-Stuck s n h = record { fails = h.fails; uncounted = h.uncounted; waits = h.waits }

  process-Stuck :
      (s : Notifier) (m : NotificationMessage) (reason : String) (method now n : ℕ)
      → Stuck s n
      → Stuck
          (process accepts blank s m reason method now)
          (if should_retry m then n + one (p m.id m.message) else n)
  unfolding process
  process-Stuck s m reason method now n h = rw (h.fails m) (
      schedule-Stuck (record s { failed_count = suc s.failed_count }) m reason method now n
        (failed-Stuck s n h))

  process_queue-Stuck :
      (ms : List NotificationMessage) (s : Notifier) (now n : ℕ)
      → Stuck s n
      → Stuck (process_queue accepts blank s ms now) n
  unfolding process_queue
  process_queue-Stuck [] s now n h = h
  process_queue-Stuck (m ∷ ms) s now n h =
      process_queue-Stuck ms _ now n
        (weaker-Stuck _ n _ (ground arith) (process-Stuck s m _ _ now n h))

  process_retries-Stuck :
      (fs : List FailedNotification) (s : Notifier) (now n : ℕ)
      → ltb 0 blank.max_retries ≡ true
      → all_zero fs ≡ true
      → Stuck s n
      → Stuck (process_retries accepts blank s fs now) (n + count_with p fs)
  unfolding process_retries should_retry retry_message
  process_retries-Stuck [] s now n r z h = weaker-Stuck s (n + 0) n (omega arith) h
  process_retries-Stuck (f ∷ fs) s now n r z h =
      weaker-Stuck _ (n + count_with p (f ∷ fs)) (next + count_with p fs) (omega arith) (
        process_retries-Stuck fs _ now next r (ground arith) (
          weaker-Stuck _ next _ (again r z)
            (process-Stuck s (retry_message accepts blank f) _ _ now n h)))
    where
      next : ℕ
      next = n + one (p f.notification_id f.content)

      again :
          ltb 0 blank.max_retries ≡ true
          → all_zero (f ∷ fs) ≡ true
          → next ≤ (if should_retry (retry_message accepts blank f) then next else n)
      again r z = ground arith

  round-Stuck :
      (s : Notifier) (now n : ℕ)
      → ltb 0 blank.max_retries ≡ true
      → Stuck s n
      → Stuck (process_notifications accepts blank s now) n
  unfolding process_notifications get_ready_for_retry deliver_notification
  round-Stuck s now n r h = by_running s.running
    where
      taken : List FailedNotification × List FailedNotification
      taken = take_ready s.retry_manager.retry_queue [] now

      left : Notifier
      left =
          let r = s.retry_manager in
          record s { notification_queue = []; retry_manager = record r { retry_queue = taken.1 } }

      zeros : (all_zero taken.0 ≡ true) × (all_zero taken.1 ≡ true)
      zeros = take_ready-all_zero s.retry_manager.retry_queue [] now refl h.uncounted

      begun : Stuck left (count_with p taken.1)
      begun = record { fails = h.fails; uncounted = zeros.1; waits = omega arith }

      by_running :
          (b : Bool)
          → Stuck
              (if not b
                then s
                else process_retries accepts blank
                    (process_queue accepts blank left s.notification_queue now)
                    taken.0
                    now)
              n
      by_running false = h
      by_running true =
          weaker-Stuck _ n (count_with p taken.1 + count_with p taken.0)
            (ground (arith, take_ready-count_with p s.retry_manager.retry_queue [] now, h.waits))
            (process_retries-Stuck taken.0 _ now (count_with p taken.1) r zeros.0
              (process_queue-Stuck s.notification_queue left now (count_with p taken.1) begun))

  rounds-Stuck :
      (nows : List ℕ) (s : Notifier) (n : ℕ)
      → ltb 0 blank.max_retries ≡ true
      → Stuck s n
      → Stuck (run_rounds accepts blank s nows) n
  unfolding run_rounds
  rounds-Stuck [] s n r h = h
  rounds-Stuck (now ∷ nows) s n r h = rounds-Stuck nows _ n r (round-Stuck s now n r h)

  -- If no message can be delivered, and the number of retries that a retried message is left with
  -- is not zero, then in no number of rounds any notification that waits for a retry is given up:
  -- of any property of an identifier and a content, for one that it is a given identifier and a given
  -- content, there are at the end no fewer notifications that wait and have it than before; and each
  -- notification that waits has the retry count zero, if it is so at the beginning.
  pub run_rounds-never_gives_up :
      (s : Notifier) (nows : List ℕ)
      → ltb 0 blank.max_retries ≡ true
      → ((m : NotificationMessage) → deliver_notification accepts blank s m ≡ false)
      → all_zero s.retry_manager.retry_queue ≡ true
      → (count_with p s.retry_manager.retry_queue
          ≤ count_with p (run_rounds accepts blank s nows).retry_manager.retry_queue)
        × (all_zero (run_rounds accepts blank s nows).retry_manager.retry_queue ≡ true)
  run_rounds-never_gives_up s nows r h z =
      let begun : Stuck s (count_with p s.retry_manager.retry_queue) = record {
        fails = h;
        uncounted = z;
        waits = omega arith;
      } in
      let t = rounds-Stuck nows s _ r begun in (t.waits, t.uncounted)
