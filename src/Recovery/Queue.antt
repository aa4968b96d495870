-- ===== src/Recovery/Queue.antt =====
-- The bounded queues that drop their oldest entries: `addPendingMessage` and `getPendingMessages`
-- of ConnectionRecoveryState (include/websocket_connection_recovery.hpp), and the template
-- DegradedModeEventQueue of include/job_monitor_service_recovery.hpp. A queue is a list, front
-- first. `none` is `pop` on an empty queue, which is undefined.
use rclabs_api.Prelude.{
  ℕ, suc, ◌+◌, ◌-◌, ◌≤◌, ◌<◌, ◌≡◌, refl, sym, ap, ◌∙◌, Option, none, some, List, [], ◌∷◌, ◌++◌,
  arith, leb, length, drop, length-append, length-drop, drop-append_le, append_assoc, append-nil,
  drop-drop, if◌then◌else◌, Bool-cases, inl, inr, leb→le, leb→lt, le→leb, lt→leb,
}

module _ {ℓ} {A : Type ℓ} where
  -- `while (queue.size() >= maxSize) queue.pop();`
  drop_oldest : ℕ → List A → Option (List A)
  drop_oldest max_size [] = if leb max_size 0 then none else some []
  drop_oldest max_size (x ∷ xs) =
      if leb max_size (length (x ∷ xs)) then drop_oldest max_size xs else some (x ∷ xs)

  abbrev pushed : A → Option (List A) → Option (List A)
  pushed a none = none
  pushed a (some q) = some (q ++ a ∷ [])

  unfoldable pub enqueue : ℕ → List A → A → Option (List A)
  unfolding drop_oldest
  enqueue max_size q a = pushed a (drop_oldest max_size q)

  -- `while (!queue.empty()) { events.push_back(queue.front()); queue.pop(); }`, with what is
  -- collected so far: all entries, and the queue that is left.
  unfoldable pub dequeue_all : List A → List A → List A × List A
  dequeue_all [] events = (events, [])
  dequeue_all (x ∷ xs) events = dequeue_all xs (events ++ x ∷ [])

  -- One call after another.
  pub enqueue_all : ℕ → List A → List A → Option (List A)
  enqueue_all max_size q [] = some q
  enqueue_all max_size q (a ∷ more) = elim (enqueue max_size q a) [
    | none ↦ none
    | some r ↦ enqueue_all max_size r more
  ]

module _ {ℓ} {A : Type ℓ} where
  drop_oldest_lem :
      (n : ℕ) (q : List A) → 0 < n → drop_oldest n q ≡ some (drop (length q + 1 - n) q)
  unfolding drop_oldest
  drop_oldest_lem n [] h = rw (lt→leb n 0 h) (ap (λ k. some (drop k [])) (sym (one-sub n h)))
    where
      one-sub : (k : ℕ) → 0 < k → 0 + 1 - k ≡ 0
      one-sub k p = omega arith
  drop_oldest_lem n (x ∷ xs) h = elim (Bool-cases (leb n (suc (length xs)))) [
    | inl t ↦
        let e : suc (length xs) + 1 - n ≡ suc (length xs + 1 - n) = omega (arith, leb→le n _ t) in
        rw (t, e) (drop_oldest_lem n xs h)
    | inr f ↦ let e : suc (length xs) + 1 - n ≡ 0 = omega (arith, leb→lt n _ f) in rw (f, e) refl
  ]

  -- A queue whose limit is not 0 takes every message, and keeps the newest ones in order: the
  -- oldest are dropped, as many as are over the limit once the message is there.
  pub enqueue-drop :
      (n : ℕ) (q : List A) (a : A)
      → 0 < n
      → enqueue n q a ≡ some (drop (length (q ++ a ∷ []) - n) (q ++ a ∷ []))
  unfolding enqueue
  enqueue-drop n q a h =
      let e : length (q ++ a ∷ []) ≡ length q + 1 = length-append q (a ∷ []) in
      rw (e, drop_oldest_lem n q h)
        (ap some (sym (drop-append_le (length q + 1 - n) q (a ∷ []) (omega arith))))

  enqueue_all-append :
      (n : ℕ) (q : List A) (a : A) (more : List A)
      → let q' = drop (length (q ++ a ∷ []) - n) (q ++ a ∷ []) in
        drop (length (q' ++ more) - n) (q' ++ more)
        ≡ drop (length (q ++ a ∷ more) - n) (q ++ a ∷ more)
  enqueue_all-append n q a more =
      let k = length (q ++ a ∷ []) - n in
      let all : List A = q ++ a ∷ more in
      let joined : drop k (q ++ a ∷ []) ++ more ≡ drop k all =
        sym (drop-append_le k (q ++ a ∷ []) more (omega arith))
        ∙ ap (drop k) (append_assoc q (a ∷ []) more) in
      let e : k + (length (drop k all) - n) ≡ length all - n =
        omega (arith, length-drop k all, length-append q (a ∷ []), length-append q (a ∷ more)) in
      rw joined (drop-drop (length (drop k all) - n) k all ∙ ap (λ j. drop j all) e)

  -- A limit of at least 1, from a queue within it: after any messages, the queue holds the last
  -- `n` of what it held and was given, in order.
  pub enqueue_all-drop :
      (n : ℕ) (q more : List A)
      → 0 < n
      → length q ≤ n
      → enqueue_all n q more ≡ some (drop (length (q ++ more) - n) (q ++ more))
  unfolding enqueue_all
  enqueue_all-drop n q [] h b =
      let e : length (q ++ []) - n ≡ 0 = omega (arith, length-append q []) in
      rw (e, append-nil q) refl
  enqueue_all-drop n q (a ∷ more) h b =
      let q' = drop (length (q ++ a ∷ []) - n) (q ++ a ∷ []) in
      let fits : length q' ≤ n =
        omega (arith, length-drop (length (q ++ a ∷ []) - n) (q ++ a ∷ [])) in
      rw (enqueue-drop n q a h, enqueue_all)
        (enqueue_all-drop n q' more h fits ∙ ap some (enqueue_all-append n q a more))

  -- A limit of 0: the loop empties the queue and then pops an empty queue, whatever it held.
  pub enqueue-zero : (q : List A) (a : A) → enqueue 0 q a ≡ none
  unfolding enqueue drop_oldest
  enqueue-zero [] a = refl
  enqueue-zero (x ∷ xs) a = rw (le→leb 0 (suc (length xs)) (omega arith)) (enqueue-zero xs a)

  -- Taking all entries gives them oldest first behind what was collected, and leaves none.
  pub dequeue_all_lem : (q events : List A) → dequeue_all q events ≡ (events ++ q, [])
  unfolding dequeue_all
  dequeue_all_lem [] events = rw (append-nil events) refl
  dequeue_all_lem (x ∷ xs) events =
      dequeue_all_lem xs (events ++ x ∷ []) ∙ ap (λ l. (l, [])) (append_assoc events (x ∷ []) xs)
