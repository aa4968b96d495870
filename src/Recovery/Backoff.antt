-- ===== src/Recovery/Backoff.antt =====
-- The delays between attempts: `calculateBackoffDelay` of ConnectionRecoveryState in
-- include/websocket_connection_recovery.hpp and of ServiceRecoveryState in
-- include/job_monitor_service_recovery.hpp, `calculateRetryDelay` of
-- include/notification_service_recovery.hpp, `calculateDelay` of src/exception_handler.cpp.
-- A multiplier is the fraction `num / den`, and a product of doubles is taken as the exact real:
-- at the default multiplier 2.0 a double is exact below 2 ^ 53. Delays are in milliseconds.
use native.Mathlib.Nat.{
  pow-zero, pow-suc, mul-one, div-one, suc-add, zero-add, mul-le-mul, le-div_iff_mul-le,
  div-mul-le_self,
}
use rclabs_api.Prelude.{
  ℕ, zero, suc, min, max, ◌+◌, ◌-◌, ◌*◌, ◌/◌, ◌^◌, ◌≤◌, ◌<◌, ◌≡◌, refl, subst, Bool, true, false,
  Option, none, some, arith, ltb, ltb→lt, lt→ltb, if◌then◌else◌,
}

pub record Multiplier : Type 0 where
  pub num : ℕ
  pub den : ℕ

-- `base * std::pow(multiplier, e)`, cut to an integer.
pub scaled : ℕ → Multiplier → ℕ → ℕ
scaled base m e = base * m.num ^ e / m.den ^ e

-- `static_cast<long long>(x)` of a double; `none` where the value does not fit, which is undefined.
to_long_long : ℕ → Option ℕ
to_long_long x = if ltb x (2 ^ 63) then some x else none

abbrev clamp : ℕ → Option ℕ → Option ℕ
clamp limit none = none
clamp limit (some d) = some (min d limit)

-- The cast comes before the clamp, and the first delay is not clamped.
unfoldable pub backoff_delay : ℕ → ℕ → Multiplier → ℕ → Option ℕ
unfolding to_long_long scaled
backoff_delay base limit m zero = some base
backoff_delay base limit m (suc attempts) = clamp limit (to_long_long (scaled base m attempts))

-- The retry queue's exponent is the count itself.
unfoldable pub calculate_retry_delay : ℕ → ℕ → Multiplier → ℕ → Option ℕ
unfolding to_long_long scaled
calculate_retry_delay base limit m zero = some base
calculate_retry_delay base limit m (suc retries) =
    clamp limit (to_long_long (scaled base m (suc retries)))

-- Here the clamp comes before the cast.
pub calculate_delay : ℕ → ℕ → Multiplier → ℕ → ℕ
unfolding scaled
calculate_delay base limit m attempt = min (scaled base m (max 1 attempt - 1)) limit

pow_pos : (d e : ℕ) → 0 < d → 0 < d ^ e
pow_pos d zero h = rw (pow-zero d) (omega arith)
pow_pos d (suc e) h = rw (pow-suc d e) (grind (arith, pow_pos d e h))

module _ (base : ℕ) (m : Multiplier) (den_pos : 0 < m.den) (grows : m.den ≤ m.num) where
  scaled-suc : (e : ℕ) → scaled base m e ≤ scaled base m (suc e)
  unfolding scaled
  scaled-suc e =
      let bound = mul-le-mul (div-mul-le_self (base * m.num ^ e) (m.den ^ e)) grows in
      rw (pow-suc m.num e, pow-suc m.den e)
        ((le-div_iff_mul-le (grind (arith, pow_pos m.den e den_pos))).1 (omega (arith, bound)))

  scaled_mono_by : (k e : ℕ) → scaled base m e ≤ scaled base m (k + e)
  scaled_mono_by zero e = rw zero-add (omega arith)
  scaled_mono_by (suc k) e = rw suc-add (omega (arith, scaled_mono_by k e, scaled-suc (k + e)))

  scaled_mono : (e f : ℕ) → e ≤ f → scaled base m e ≤ scaled base m f
  scaled_mono e f h =
      let at = scaled_mono_by (f - e) e in
      subst (λ k. scaled base m e ≤ scaled base m k) (omega arith) at

scaled-zero : (base : ℕ) (m : Multiplier) → scaled base m 0 ≡ base
unfolding scaled
scaled-zero base m = rw (pow-zero m.num, pow-zero m.den, mul-one base, div-one base) refl

clamp_inv :
    (t : Bool) (limit v y : ℕ)
    → clamp limit (if t then some v else none) ≡ some y
    → (t ≡ true) × (y ≡ min v limit)
clamp_inv true limit v y h = (refl, ground arith)
clamp_inv false limit v y h = cc

cast_inv :
    (limit v y : ℕ) → clamp limit (to_long_long v) ≡ some y → (v < 2 ^ 63) × (y ≡ min v limit)
unfolding to_long_long
cast_inv limit v y h =
    let (fits, e) = clamp_inv (ltb v (2 ^ 63)) limit v y h in (ltb→lt v (2 ^ 63) fits, e)

cast_fits : (limit v : ℕ) → v < 2 ^ 63 → clamp limit (to_long_long v) ≡ some (min v limit)
unfolding to_long_long
cast_fits limit v h = rw (lt→ltb v (2 ^ 63) h) refl

module _ (base limit : ℕ) (m : Multiplier) (den_pos : 0 < m.den) (grows : m.den ≤ m.num)
    (first : base ≤ limit) where
  -- A multiplier of at least one, and a first delay within the limit: if the delay after `b`
  -- attempts is defined, then it is within the limit, and the delay after any `a ≤ b` attempts is
  -- defined and is no longer.
  pub backoff_delay_mono :
      (a b y : ℕ)
      → a ≤ b
      → backoff_delay base limit m b ≡ some y
      → (y ≤ limit) × (x : ℕ) × (backoff_delay base limit m a ≡ some x) × (x ≤ y)
  unfolding backoff_delay
  backoff_delay_mono zero zero y h e = (ground arith, base, refl, ground arith)
  backoff_delay_mono (suc a) zero y h e = absurd (omega arith)
  backoff_delay_mono zero (suc b) y h e =
      let c = cast_inv limit (scaled base m b) y e in
      let up = scaled_mono base m den_pos grows 0 b (omega arith) in
      (omega (arith, c.1), base, refl, omega (arith, c.1, up, scaled-zero base m))
  backoff_delay_mono (suc a) (suc b) y h e =
      let c = cast_inv limit (scaled base m b) y e in
      let up = scaled_mono base m den_pos grows a b (omega arith) in
      (
        omega (arith, c.1),
        min (scaled base m a) limit,
        cast_fits limit (scaled base m a) (omega (arith, c.0, up)),
        omega (arith, c.1, up),
      )

  -- The same for the retries, where the delay is clamped before it is cast: it is always defined.
  pub calculate_delay_mono :
      (a b : ℕ)
      → a ≤ b
      → (calculate_delay base limit m a ≤ calculate_delay base limit m b)
        × (calculate_delay base limit m b ≤ limit)
        × (calculate_delay base limit m 1 ≡ base)
  unfolding calculate_delay
  calculate_delay_mono a b h =
      let up = scaled_mono base m den_pos grows (max 1 a - 1) (max 1 b - 1) (omega arith) in
      (omega (arith, up), omega arith, omega (arith, scaled-zero base m))
