-- ===== src/Limits/Cleanup.antt =====
-- What the cleanup of the counters leaves as it was.
use rclabs_api.Prelude.{
  ℕ, ◌/◌, ◌≤◌, ◌≡◌, refl, sym, ◌∙◌, String, Bool, true, false, Option, none, some, leb, arith,
  if◌then◌else◌,
}
use rclabs_api.Limits.{
  RateLimitRule, RateLimiter, get_rule_for_endpoint, recent, counted, allowed_by, is_allowed,
  cleanup_expired_entries,
}

verdict : RateLimitRule → ℕ → ℕ → Bool
verdict r a b =
    if leb r.requests_per_minute a then false else if leb r.requests_per_hour b then false else true

answer :
    (a b : Bool) (x y z : RateLimiter)
    → let o : RateLimiter × Bool = if a then (x, false) else if b then (y, false) else (z, true) in
      o.1 ≡ (if a then false else if b then false else true)
answer true b x y z = refl
answer false true x y z = refl
answer false false x y z = refl

allowed_by-verdict :
    (s : RateLimiter) (c e : String) (r : RateLimitRule) (minute hour : ℕ)
    → (allowed_by s c e (some r) minute hour).1
      ≡ verdict r
          ((s.client_data c).minute_counters e minute)
          ((s.client_data c).hour_counters e hour)
unfolding allowed_by verdict
allowed_by-verdict s c e r minute hour =
    answer (leb r.requests_per_minute ((s.client_data c).minute_counters e minute))
      (leb r.requests_per_hour ((s.client_data c).hour_counters e hour)) s s
      (counted s c e minute hour)

recent-same :
    (counters : String → ℕ → ℕ) (current : ℕ) (e : String) (w : ℕ)
    → current ≤ w
    → recent counters current e w ≡ counters e w
unfolding recent
recent-same counters current e w h = ground arith

allowed_by-cleanup :
    (s : RateLimiter) (c e : String) (o : Option RateLimitRule) (time minute hour : ℕ)
    → time / 60 ≤ minute
    → time / 3600 ≤ hour
    → (allowed_by (cleanup_expired_entries s time) c e o minute hour).1
      ≡ (allowed_by s c e o minute hour).1
unfolding cleanup_expired_entries allowed_by
allowed_by-cleanup s c e none time minute hour h k = refl
allowed_by-cleanup s c e (some r) time minute hour h k =
    allowed_by-verdict (cleanup_expired_entries s time) c e r minute hour
    ∙ (λ i.
        verdict r (recent-same (s.client_data c).minute_counters (time / 60) e minute h i)
          (recent-same (s.client_data c).hour_counters (time / 3600) e hour k i))
    ∙ sym (allowed_by-verdict s c e r minute hour)

-- A cleanup changes no answer of `isAllowed` at its own time or later.
pub is_allowed-cleanup :
    (s : RateLimiter) (c e : String) (time now : ℕ)
    → time ≤ now
    → (is_allowed (cleanup_expired_entries s time) c e now).1 ≡ (is_allowed s c e now).1
unfolding is_allowed cleanup_expired_entries
is_allowed-cleanup s c e time now h =
    allowed_by-cleanup s c e (get_rule_for_endpoint s.rules e) time (now / 60) (now / 3600)
      (omega (arith, h)) (omega (arith, h))
