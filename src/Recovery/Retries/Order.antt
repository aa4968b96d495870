-- ===== src/Recovery/Retries/Order.antt =====
-- The order of the retry queue, and what `getReadyForRetry` and `addFailedNotification` make of it.
use rclabs_api.Prelude.{
  ℕ, ◌+◌, ◌≤◌, ◌<◌, ◌≡◌, refl, subst, ap, String, some, List, [], ◌∷◌, ◌++◌, arith, leb,
  append_assoc, append-nil, Bool-cases, inl, inr, leb→le, leb→lt,
}
use rclabs_api.Recovery.Retries.{
  FailedNotification, RetryQueueManager, add_failed_notification, take_ready, get_ready_for_retry,
}

abbrev pub All {ℓ} : (FailedNotification → Type ℓ) → List FailedNotification → Type ℓ
All P [] = Unit
All P (f ∷ fs) = P f × All P fs

-- The retry times do not fall along the queue, and none is later than `limit`.
abbrev pub IsSorted : ℕ → List FailedNotification → Type 0
IsSorted limit [] = Unit
IsSorted limit (f ∷ fs) =
    (f.next_retry_time ≤ limit)
    × All (λ g. f.next_retry_time ≤ g.next_retry_time) fs
    × IsSorted limit fs

-- What a manager's queue is like when the clock reads `now`.
abbrev pub IsOrdered : ℕ → RetryQueueManager → Type 0
IsOrdered now m = IsSorted (now + m.config.base_retry_delay) m.retry_queue

IsSorted-mono : (a b : ℕ) (q : List FailedNotification) → a ≤ b → IsSorted a q → IsSorted b q
IsSorted-mono a b [] h s = tt
IsSorted-mono a b (f ∷ fs) h s = (omega arith, s.1, IsSorted-mono a b fs h s.2)

All-snoc :
    (t : ℕ) (q : List FailedNotification) (g : FailedNotification)
    → All (λ f. t ≤ f.next_retry_time) q
    → t ≤ g.next_retry_time
    → All (λ f. t ≤ f.next_retry_time) (q ++ g ∷ [])
All-snoc t [] g h k = (k, tt)
All-snoc t (f ∷ fs) g h k = (h.0, All-snoc t fs g h.1 k)

IsSorted-snoc :
    (t : ℕ) (q : List FailedNotification) (g : FailedNotification)
    → IsSorted t q
    → g.next_retry_time ≡ t
    → IsSorted t (q ++ g ∷ [])
IsSorted-snoc t [] g s e = (omega arith, tt, tt)
IsSorted-snoc t (f ∷ fs) g s e =
    (s.0, All-snoc f.next_retry_time fs g s.1 (omega arith), IsSorted-snoc t fs g s.2 e)

-- What `take_ready` does of a queue: it is cut in two, the first part is ready and the second not.
record IsSplit (now : ℕ) (q taken left : List FailedNotification) : Type 0 where
  whole : q ≡ taken ++ left
  ready : All (λ f. f.next_retry_time ≤ now) taken
  waiting : All (λ f. now < f.next_retry_time) left

All-later :
    (t now : ℕ) (q : List FailedNotification)
    → now < t
    → All (λ g. t ≤ g.next_retry_time) q
    → All (λ g. now < g.next_retry_time) q
All-later t now [] h a = tt
All-later t now (f ∷ fs) h a = (omega arith, All-later t now fs h a.1)

take_ready-acc :
    (q acc : List FailedNotification) (now : ℕ)
    → take_ready q acc now ≡ (acc ++ (take_ready q [] now).0, (take_ready q [] now).1)
unfolding take_ready
take_ready-acc [] acc now = rw (append-nil acc) refl
take_ready-acc (f ∷ fs) acc now = elim (Bool-cases (leb f.next_retry_time now)) [
  | inl t ↦
      rw (t, take_ready-acc fs (acc ++ f ∷ []) now, take_ready-acc fs (f ∷ []) now)
        (ap (λ (l : List FailedNotification). (l, (take_ready fs [] now).1))
          (append_assoc acc (f ∷ []) (take_ready fs [] now).0))
  | inr w ↦ rw (w, append-nil acc) refl
]

take_ready-IsSplit :
    (limit now : ℕ) (q : List FailedNotification)
    → IsSorted limit q
    → IsSplit now q (take_ready q [] now).0 (take_ready q [] now).1
unfolding take_ready
take_ready-IsSplit limit now [] s = record { whole = refl; ready = tt; waiting = tt }
take_ready-IsSplit limit now (f ∷ fs) s = elim (Bool-cases (leb f.next_retry_time now)) [
  | inl t ↦
      let rest = take_ready-IsSplit limit now fs s.2 in
      rw (t, take_ready-acc fs (f ∷ []) now)
        (record {
          whole = ap (◌∷◌ f) rest.whole;
          ready = (leb→le f.next_retry_time now t, rest.ready);
          waiting = rest.waiting;
        })
  | inr w ↦
      let late = leb→lt f.next_retry_time now w in
      rw w (record {
        whole = refl;
        ready = tt;
        waiting = (late, All-later f.next_retry_time now fs late s.1);
      })
]

IsSorted-left :
    (limit : ℕ) (taken left : List FailedNotification)
    → IsSorted limit (taken ++ left)
    → IsSorted limit left
IsSorted-left limit [] left s = s
IsSorted-left limit (f ∷ fs) left s = IsSorted-left limit fs left s.2

-- The queue of a manager is in the order of the retry times, none later than one base delay from
-- now. Then `getReadyForRetry` takes from its front all that are ready and nothing else, and what
-- it leaves is ordered at any later time.
pub get_ready_for_retry_exact :
    (m : RetryQueueManager) (now later : ℕ)
    → IsOrdered now m
    → now ≤ later
    → let (m', ready) = get_ready_for_retry m now in
      (m.retry_queue ≡ ready ++ m'.retry_queue)
      × All (λ f. f.next_retry_time ≤ now) ready
      × All (λ f. now < f.next_retry_time) m'.retry_queue
      × IsOrdered later m'
unfolding get_ready_for_retry
get_ready_for_retry_exact m now later s h =
    let base = m.config.base_retry_delay in
    let cut = take_ready-IsSplit (now + base) now m.retry_queue s in
    let (ready, left) = take_ready m.retry_queue [] now in
    let sorted : IsSorted (now + base) left =
      IsSorted-left (now + base) ready left (subst (IsSorted (now + base)) cut.whole s) in
    (
      cut.whole,
      cut.ready,
      cut.waiting,
      IsSorted-mono (now + base) (later + base) left (omega arith) sorted,
    )

-- A failed notification is put behind the others, to be tried again one base delay from now (its
-- delay does not grow and is not clamped), and the order is kept.
pub add_failed_notification-IsOrdered :
    (m : RetryQueueManager) (id recipient content reason : String) (method before now : ℕ)
    → IsOrdered before m
    → before ≤ now
    → (f : FailedNotification) × (m' : RetryQueueManager) × (add_failed_notification m id recipient
          content reason method now
        ≡ some m')
      × (m'.retry_queue ≡ m.retry_queue ++ f ∷ [])
      × (f.next_retry_time ≡ now + m.config.base_retry_delay)
      × (f.retry_count ≡ 0)
      × IsOrdered now m'
unfolding add_failed_notification
add_failed_notification-IsOrdered m id recipient content reason method before now s h =
    let base = m.config.base_retry_delay in
    let f : FailedNotification = record {
      notification_id = id;
      recipient = recipient;
      content = content;
      next_retry_time = now + base;
      failure_reason = reason;
      retry_count = 0;
      failed_method_index = method;
    } in
    (
      f,
      record m { retry_queue = m.retry_queue ++ f ∷ [] },
      refl,
      refl,
      refl,
      refl,
      IsSorted-snoc (now + base) m.retry_queue f
          (IsSorted-mono (before + base) (now + base) m.retry_queue (omega arith) s) refl,
    )
