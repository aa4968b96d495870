-- ===== src/Exceptions.antt =====
-- ExceptionHandler of include/exception_handler.hpp and src/exception_handler.cpp: the policies of
-- executeWithHandling, and executeWithRetry. A function that may throw is what it returns or
-- throws; one that is tried again is that by the number of the attempt. Logs are left out, and so
-- are the contexts of the exceptions.
pub mod Retrying
pub mod Policies
mod Examples
use rclabs_api.Prelude.{
  ℕ, zero, suc, ◌+◌, ◌==◌, String, str_append, Bool, true, false, not, ◌||◌, Option, none, some,
  List, [], ◌∷◌, ◌++◌, if◌then◌else◌,
}
use rclabs_api.Errors.{
  ErrorCode, internal_error, network_error, database_error, component_unavailable, lock_timeout,
}
use rclabs_api.Database.{EtlException, Failure, etl, standard, unknown}
use rclabs_api.Recovery.Backoff.{Multiplier, calculate_delay}

pub data Result (A : Type 0) : Type 0 where
  returned : A → Result A
  threw : Failure → Result A

pub data ExceptionPolicy : Type 0 where
  propagate log_and_ignore log_and_return retry : ExceptionPolicy

-- `handleETLException` while `in_flight` is being handled: `throw` without an operand throws that
-- on, not the exception that is handed over.
pub handle_etl_exception : Failure → EtlException → ExceptionPolicy → Option Failure
handle_etl_exception in_flight x propagate = some in_flight
handle_etl_exception in_flight x log_and_ignore = none
handle_etl_exception in_flight x log_and_return = none
handle_etl_exception in_flight x retry = some in_flight

-- `convert` is `convertException`.
pub handle_failure : (String → EtlException) → Failure → ExceptionPolicy → Option Failure
unfolding handle_etl_exception
handle_failure convert (etl x) policy = handle_etl_exception (etl x) x policy
handle_failure convert (standard message) policy =
    handle_etl_exception (standard message) (convert message) policy
handle_failure convert unknown policy =
    handle_etl_exception unknown
      (record { code = internal_error; message = "Unknown exception caught" }) policy

pub or_default : {A : Type 0} → A → Option Failure → Result A
or_default a none = returned a
or_default a (some f) = threw f

-- `default` is `ReturnType{}`.
pub execute_with_handling :
    {A : Type 0} → A → (String → EtlException) → ExceptionPolicy → Result A → Result A
unfolding handle_failure or_default
execute_with_handling default convert policy (returned a) = returned a
execute_with_handling default convert policy (threw f) =
    or_default default (handle_failure convert f policy)

-- `RetryConfig`
pub record RetryPolicy : Type 0 where
  pub max_attempts : ℕ
  pub initial_delay : ℕ
  pub multiplier : Multiplier
  pub max_delay : ℕ
  pub should_retry : EtlException → Bool

-- The default of `shouldRetry`.
pub is_transient : ErrorCode → Bool
is_transient network_error = true
is_transient database_error = true
is_transient component_unavailable = true
is_transient lock_timeout = true
is_transient _ = false

-- What came of the attempts: the result, how many there were, and the delays between them.
pub record Tried (A : Type 0) : Type 0 where
  pub result : Result A
  pub attempts : ℕ
  pub delays : List ℕ

pub caught_standard : String → EtlException
caught_standard message = record {
  code = internal_error;
  message = str_append "Standard exception caught: " message;
}

-- The last exception of the program's own, once no attempt is left.
no_attempt_left : Option EtlException → EtlException
no_attempt_left (some x) = x
no_attempt_left none = record { code = internal_error; message = "Unexpected error in retry logic" }

module _ {A : Type 0} (config : RetryPolicy) (func : ℕ → Result A) where
  pub ended : Result A → ℕ → List ℕ → Tried A
  ended r attempt delays = record { result = r; attempts = attempt; delays = delays }

  -- What follows on the outcome of an attempt; `next` is the next round.
  pub after_attempt :
      Result A → ℕ → Option EtlException → List ℕ → (Option EtlException → Tried A) → Tried A
  unfolding ended caught_standard
  after_attempt (returned a) attempt last delays next = ended (returned a) attempt delays
  after_attempt (threw (etl x)) attempt last delays next =
      if attempt == config.max_attempts || not (config.should_retry x)
      then ended (threw (etl x)) attempt delays
      else next (some x)
  after_attempt (threw (standard message)) attempt last delays next =
      if attempt == config.max_attempts
      then ended (threw (etl (caught_standard message))) attempt delays
      else next last
  after_attempt (threw unknown) attempt last delays next = ended (threw unknown) attempt delays

  -- The loop from an attempt, with `left` more at most.
  pub attempts_from : ℕ → ℕ → Option EtlException → List ℕ → Tried A
  unfolding after_attempt no_attempt_left
  attempts_from zero attempt last delays = record {
    result = threw (etl (no_attempt_left last));
    attempts = attempt;
    delays = delays;
  }
  attempts_from (suc left) attempt last delays =
      after_attempt (func attempt) attempt last delays (λ kept.
        attempts_from left (suc attempt) kept (
          delays
          ++ calculate_delay config.initial_delay config.max_delay config.multiplier attempt ∷ []))

  pub execute_with_retry : Tried A
  unfolding attempts_from
  execute_with_retry = attempts_from config.max_attempts 1 none []
