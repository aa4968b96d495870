-- ===== src/Recovery/States/Attempts.antt =====
-- When an attempt to reconnect or to recover is made.
use rclabs_api.Prelude.{
  ℕ, ◌+◌, ◌*◌, ◌≤◌, ◌<◌, ◌≡◌, refl, ◌↔◌, Bool, true, false, Option, none, some, arith,
}
use rclabs_api.Recovery.States.{
  TimePoint, at, time_min, attempt_due, ConnectionRecoveryConfig, ConnectionRecoveryState,
  connection_reset, calculate_backoff_delay, should_attempt_reconnect, ServiceRecoveryConfig,
  ServiceRecoveryState, service_reset, service_backoff_delay, should_attempt_recovery,
}

-- What lets an attempt be made: it is enabled, attempts are left, and the delay since the last one
-- is over.
abbrev pub Due : Bool → ℕ → ℕ → TimePoint → Option ℕ → ℕ → Type 0
Due enabled limit attempts last delay now =
    (t : ℕ) × (d : ℕ) × (enabled ≡ true)
    × (attempts < limit)
    × (last ≡ at t)
    × (delay ≡ some d)
    × (t + d * 1000000 ≤ now)

module _ (limit attempts now : ℕ) where
  attempt_due-Due :
      (enabled : Bool) (last : TimePoint) (delay : Option ℕ)
      → attempt_due enabled limit attempts last delay now ≡ some true
      → Due enabled limit attempts last delay now
  unfolding attempt_due
  attempt_due-Due false last delay h = cc
  attempt_due-Due true last none h = absurd (ground arith)
  attempt_due-Due true (at t) (some d) h = (t, d, refl, ground arith, refl, refl, ground arith)
  attempt_due-Due true time_min (some d) h = absurd (ground arith)

  Due-attempt_due :
      (enabled : Bool) (last : TimePoint) (delay : Option ℕ)
      → Due enabled limit attempts last delay now
      → attempt_due enabled limit attempts last delay now ≡ some true
  unfolding attempt_due
  Due-attempt_due enabled last delay (t, d, on, few, e, f, h) = ground arith

  -- With no attempt made since `reset`, the difference overflows.
  attempt_due-min :
      (d : ℕ) → attempts < limit → attempt_due true limit attempts time_min (some d) now ≡ none
  unfolding attempt_due
  attempt_due-min d h = ground arith

-- An attempt to reconnect is made exactly if it is enabled, fewer attempts than the maximum were
-- made, the last attempt's time is after the epoch, and the backoff delay, if it is defined, has
-- passed since. So none is made once the maximum is reached, whatever the clock reads.
pub should_attempt_reconnect_iff :
    (s : ConnectionRecoveryState) (c : ConnectionRecoveryConfig) (now : ℕ)
    → (should_attempt_reconnect s c now ≡ some true)
      ↔ Due c.enable_auto_reconnect c.max_reconnect_attempts s.reconnect_attempts
          s.last_reconnect_attempt
          (calculate_backoff_delay s c)
          now
unfolding should_attempt_reconnect
should_attempt_reconnect_iff s c now = (
  attempt_due-Due c.max_reconnect_attempts s.reconnect_attempts now c.enable_auto_reconnect
      s.last_reconnect_attempt (calculate_backoff_delay s c),
  Due-attempt_due c.max_reconnect_attempts s.reconnect_attempts now c.enable_auto_reconnect
      s.last_reconnect_attempt (calculate_backoff_delay s c),
)

-- The same of an attempt of the monitoring service to recover.
pub should_attempt_recovery_iff :
    (s : ServiceRecoveryState) (c : ServiceRecoveryConfig) (now : ℕ)
    → (should_attempt_recovery s c now ≡ some true)
      ↔ Due c.enable_auto_recovery c.max_recovery_attempts s.recovery_attempts
          s.last_recovery_attempt
          (service_backoff_delay s c)
          now
unfolding should_attempt_recovery
should_attempt_recovery_iff s c now = (
  attempt_due-Due c.max_recovery_attempts s.recovery_attempts now c.enable_auto_recovery
      s.last_recovery_attempt (service_backoff_delay s c),
  Due-attempt_due c.max_recovery_attempts s.recovery_attempts now c.enable_auto_recovery
      s.last_recovery_attempt (service_backoff_delay s c),
)

-- The bug: after a reset, with recovery enabled and at least one attempt allowed, neither test is
-- defined, whatever the clock reads: both subtract `time_point::min()` from it, and overflow.
pub reset_overflows :
    (s : ConnectionRecoveryState) (c : ConnectionRecoveryConfig) (s' : ServiceRecoveryState)
    (c' : ServiceRecoveryConfig) (before now : ℕ)
    → c.enable_auto_reconnect ≡ true
    → 0 < c.max_reconnect_attempts
    → c'.enable_auto_recovery ≡ true
    → 0 < c'.max_recovery_attempts
    → (should_attempt_reconnect (connection_reset s before) c now ≡ none)
      × (should_attempt_recovery (service_reset s' before) c' now ≡ none)
unfolding should_attempt_reconnect should_attempt_recovery connection_reset service_reset
    calculate_backoff_delay service_backoff_delay
reset_overflows s c s' c' before now on some_left on' some_left' = (
  rw on (attempt_due-min c.max_reconnect_attempts 0 now c.base_reconnect_delay some_left),
  rw on' (attempt_due-min c'.max_recovery_attempts 0 now c'.base_recovery_delay some_left'),
)
