-- ===== src/Exceptions/Retrying.antt =====
-- How often executeWithRetry tries, and what it comes to.
use rclabs_api.Prelude.{
  ℕ, zero, suc, ◌+◌, ◌<◌, ◌≡◌, refl, sym, subst, ap, ◌∙◌, ◌⊎◌, inl, inr, Bool, true, false, not,
  ◌&&◌, ◌||◌, Option, none, some, List, [], ◌∷◌, ◌++◌, length, length-append, ◌==◌, ==_iff, arith,
  if◌then◌else◌, Bool-cases,
}
use rclabs_api.Database.{EtlException, etl, standard, unknown}
use rclabs_api.Recovery.Backoff.{calculate_delay}
use rclabs_api.Exceptions.{
  Result, returned, threw, RetryPolicy, Tried, caught_standard, ended, after_attempt, attempts_from,
  execute_with_retry,
}

refused : (b r : Bool) → b ≡ false → (b || not r) ≡ true → r ≡ false
refused true r h t = cc
refused false true h t = cc
refused false false h t = refl

goes_on : (b r : Bool) → (b || not r) ≡ false → (b ≡ false) × (r ≡ true)
goes_on true r h = cc
goes_on false true h = (refl, refl)
goes_on false false h = cc

module _ {A : Type 0} (config : RetryPolicy) (func : ℕ → Result A) where
  -- Whether an outcome is tried again, if an attempt is left.
  abbrev pub is_retried : Result A → Bool
  is_retried (returned a) = false
  is_retried (threw (etl x)) = config.should_retry x
  is_retried (threw (standard message)) = true
  is_retried (threw unknown) = false

  -- What is passed on of the last outcome.
  abbrev pub passed_on : Result A → Result A
  passed_on (threw (standard message)) = threw (etl (caught_standard message))
  passed_on r = r

  -- The outcomes of so many attempts from one on are all tried again.
  abbrev pub all_retried : ℕ → ℕ → Bool
  all_retried attempt zero = true
  all_retried attempt (suc n) = is_retried (func attempt) && all_retried (suc attempt) n

  -- After `k` attempts that are tried again comes the last, which is not, or is the last allowed.
  abbrev pub Ends : ℕ → ℕ → ℕ → Tried A → Type 0
  Ends attempt waits left t =
      (k : ℕ) × (k < left)
      × (t.attempts ≡ attempt + k)
      × (all_retried attempt k ≡ true)
      × (t.result ≡ passed_on (func (attempt + k)))
      × (length t.delays ≡ waits + k)
      × ((is_retried (func (attempt + k)) ≡ false) ⊎ (attempt + k ≡ config.max_attempts))

  at_once :
      (attempt left : ℕ) (delays : List ℕ) (t : Tried A)
      → t ≡ ended config func (passed_on (func attempt)) attempt delays
      → (is_retried (func attempt) ≡ false) ⊎ (attempt ≡ config.max_attempts)
      → Ends attempt (length delays) (suc left) t
  unfolding ended
  at_once attempt left delays t e h =
      let here : attempt ≡ attempt + 0 = omega arith in
      (
        0,
        omega arith,
        ap (λ (u : Tried A). u.attempts) e ∙ here,
        refl,
        ap (λ (u : Tried A). u.result) e ∙ ap (λ n. passed_on (func n)) here,
        omega (arith, ap (λ (u : Tried A). length u.delays) e),
        subst (λ n. (is_retried (func n) ≡ false) ⊎ (n ≡ config.max_attempts)) here h,
      )

  later_on :
      (attempt left : ℕ) (delays : List ℕ) (d : ℕ) (t : Tried A)
      → is_retried (func attempt) ≡ true
      → Ends (suc attempt) (length (delays ++ d ∷ [])) left t
      → Ends attempt (length delays) (suc left) t
  later_on attempt left delays d t r (k, less, tries, all, result, waits, last) =
      let there : suc attempt + k ≡ attempt + suc k = omega arith in
      (
        suc k,
        omega (arith, less),
        tries ∙ there,
        ap (λ b. b && all_retried (suc attempt) k) r ∙ all,
        result ∙ ap (λ n. passed_on (func n)) there,
        omega (arith, waits, length-append delays (d ∷ [])),
        subst (λ n. (is_retried (func n) ≡ false) ⊎ (n ≡ config.max_attempts)) there last,
      )

  delay_after : ℕ → ℕ
  delay_after attempt =
      calculate_delay config.initial_delay config.max_delay config.multiplier attempt

  choose-Ends :
      (b : Bool) (left attempt : ℕ) (delays : List ℕ) (x y : Tried A)
      → (b ≡ true → Ends attempt (length delays) (suc left) x)
      → (b ≡ false → Ends attempt (length delays) (suc left) y)
      → Ends attempt (length delays) (suc left) (if b then x else y)
  choose-Ends true left attempt delays x y f g = f refl
  choose-Ends false left attempt delays x y f g = g refl

  stops :
      (x : EtlException) (attempt : ℕ)
      → func attempt ≡ threw (etl x)
      → (attempt == config.max_attempts || not (config.should_retry x)) ≡ true
      → (is_retried (func attempt) ≡ false) ⊎ (attempt ≡ config.max_attempts)
  stops x attempt e t = elim (Bool-cases (attempt == config.max_attempts)) [
    | inl last ↦ inr ((==_iff attempt config.max_attempts).0 last)
    | inr more ↦ inl (ap is_retried e ∙ refused _ _ more t)
  ]

  not_last :
      (attempt : ℕ) → (attempt == config.max_attempts) ≡ false → ¬ attempt ≡ config.max_attempts
  not_last attempt n e = ground (arith, n, e)

  attempt-Ends :
      (r : Result A) (left attempt : ℕ) (last : Option EtlException) (delays : List ℕ)
      (next : Option EtlException → Tried A)
      → func attempt ≡ r
      → ((attempt == config.max_attempts) ≡ false
          → (kept : Option EtlException)
          → Ends (suc attempt) (length (delays ++ delay_after attempt ∷ [])) left (next kept))
      → Ends attempt
          (length delays)
          (suc left)
          (after_attempt config func r attempt last delays next)
  unfolding after_attempt
  attempt-Ends (returned a) left attempt last delays next e f =
      at_once attempt left delays _
        (ap (λ r. ended config func (passed_on r) attempt delays) (sym e)) (inl (ap is_retried e))
  attempt-Ends (threw unknown) left attempt last delays next e f =
      at_once attempt left delays _
        (ap (λ r. ended config func (passed_on r) attempt delays) (sym e)) (inl (ap is_retried e))
  attempt-Ends (threw (standard message)) left attempt last delays next e f =
      choose-Ends (attempt == config.max_attempts) left attempt delays _ _
        (λ t.
          at_once attempt left delays _
            (ap (λ r. ended config func (passed_on r) attempt delays) (sym e))
            (inr ((==_iff attempt config.max_attempts).0 t)))
        (λ n.
          later_on attempt left delays (delay_after attempt) (next last) (ap is_retried e)
            (f n last))
  attempt-Ends (threw (etl x)) left attempt last delays next e f =
      choose-Ends (attempt == config.max_attempts || not (config.should_retry x)) left attempt
        delays _ _
        (λ t.
          at_once attempt left delays _
            (ap (λ r. ended config func (passed_on r) attempt delays) (sym e))
            (stops x attempt e t))
        (λ n.
          let p = goes_on (attempt == config.max_attempts) (config.should_retry x) n in
          later_on attempt left delays (delay_after attempt) (next (some x)) (ap is_retried e ∙ p.1)
            (f p.0 (some x)))

  attempts_from-Ends :
      (left attempt : ℕ) (last : Option EtlException) (delays : List ℕ)
      → attempt + left ≡ config.max_attempts
      → Ends attempt
          (length delays)
          (suc left)
          (attempts_from config func (suc left) attempt last delays)
  unfolding attempts_from delay_after
  attempts_from-Ends zero attempt last delays h =
      attempt-Ends (func attempt) zero attempt last delays _ refl
        (λ n kept. absurd (not_last attempt n (omega (arith, h))))
  attempts_from-Ends (suc left) attempt last delays h =
      attempt-Ends (func attempt) (suc left) attempt last delays _ refl
        (λ n kept. attempts_from-Ends left (suc attempt) kept _ (omega (arith, h)))

  -- With at least one attempt allowed: the attempts come to an end; all but the last are tried
  -- again, as an exception of the standard library is, and one of the program's own if the policy
  -- says so; the last is not tried again, or is the last allowed; there are at most as many as
  -- allowed, with a delay before each but the first; and what the last came to is passed on, an
  -- exception of the standard library as an internal error.
  pub execute_with_retry-Ends :
      (allowed : ℕ)
      → config.max_attempts ≡ suc allowed
      → Ends 1 0 (suc allowed) (execute_with_retry config func)
  unfolding execute_with_retry
  execute_with_retry-Ends allowed h =
      subst (λ n. Ends 1 0 (suc allowed) (attempts_from config func n 1 none [])) (sym h)
        (attempts_from-Ends allowed 1 none [] (omega (arith, h)))
