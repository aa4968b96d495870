-- ===== src/Limits.antt =====
-- RateLimiter of src/rate_limiter.cpp. A counter that a map does not have counts 0, and a client
-- that is not known has no counters, so that the maps are functions; a key, the text of the
-- endpoint and of the window, is the pair of them. Times are seconds since the epoch. std::sort is
-- a sort by insertion: rules of one length that match one endpoint are of one text.
pub mod Rules
pub mod Windows
pub mod Bounds
pub mod Cleanup
mod Examples
use rclabs_api.Prelude.{
  ℕ, suc, ◌+◌, ◌-◌, ◌*◌, ◌/◌, ltb, leb, ◌==◌, String, str_eq, len, starts_with, get?, Bool, true,
  false, ◌&&◌, ◌||◌, Option, none, some, List, [], ◌∷◌, if◌then◌else◌,
}

pub record RateLimitRule : Type 0 where
  pub endpoint : String
  pub requests_per_minute : ℕ
  pub requests_per_hour : ℕ

pub record ClientData : Type 0 where
  pub minute_counters : String → ℕ → ℕ
  pub hour_counters : String → ℕ → ℕ

pub record RateLimiter : Type 0 where
  pub client_data : String → ClientData
  pub rules : List RateLimitRule

pub record RateLimitInfo : Type 0 where
  pub remaining_requests : ℕ
  pub reset_time : ℕ
  pub limit : ℕ

unfoldable pub no_data : ClientData
no_data = record { minute_counters = λ e m. 0; hour_counters = λ e h. 0 }

-- The rules in descending length of their endpoint.
pub insert_rule : RateLimitRule → List RateLimitRule → List RateLimitRule
insert_rule r [] = r ∷ []
insert_rule r (q ∷ qs) =
    let rest = insert_rule r qs in
    if ltb (len r.endpoint) (len q.endpoint) then q ∷ rest else r ∷ q ∷ qs

pub sort_rules : List RateLimitRule → List RateLimitRule
unfolding insert_rule
sort_rules [] = []
sort_rules (r ∷ rs) = insert_rule r (sort_rules rs)

abbrev pub rule : String → ℕ → ℕ → RateLimitRule
rule e per_minute per_hour = record {
  endpoint = e;
  requests_per_minute = per_minute;
  requests_per_hour = per_hour;
}

-- The constructor, which calls `initializeDefaultRules`.
pub make : RateLimiter
unfolding sort_rules no_data
make = record {
  client_data = λ c. no_data;
  rules = sort_rules (
      rule "/api/auth/login" 5 20
      ∷ rule "/api/auth/logout" 10 50
      ∷ rule "/api/auth/profile" 30 200
      ∷ rule "/api/logs" 60 500
      ∷ rule "/api/jobs" 30 200
      ∷ rule "/api/monitor" 120 1000
      ∷ rule "/api/health" 300 2000
      ∷ []);
}

pub add_rule : RateLimiter → RateLimitRule → RateLimiter
unfolding sort_rules
add_rule s r = record s { rules = sort_rules (r ∷ s.rules) }

-- The character at a position is a slash.
slash_at : String → ℕ → Bool
slash_at e n = elim (get? e n (suc n)) [ some c ↦ str_eq c "/" | none ↦ false ]

-- The rule is for the endpoint itself, or for what lies below it.
pub matches : RateLimitRule → String → Bool
unfolding slash_at
matches r e =
    str_eq e r.endpoint
    || starts_with e r.endpoint && (len e == len r.endpoint || slash_at e (len r.endpoint))

pub get_rule_for_endpoint : List RateLimitRule → String → Option RateLimitRule
unfolding matches
get_rule_for_endpoint [] e = none
get_rule_for_endpoint (r ∷ rs) e =
    let rest = get_rule_for_endpoint rs e in if matches r e then some r else rest

-- A counter goes up by one.
pub bump : (String → ℕ → ℕ) → String → ℕ → String → ℕ → ℕ
bump counters e w f v = if str_eq f e && v == w then suc (counters f v) else counters f v

pub counted : RateLimiter → String → String → ℕ → ℕ → RateLimiter
unfolding bump
counted s c e minute hour =
    let d = s.client_data c in
    let more : ClientData = record {
      minute_counters = bump d.minute_counters e minute;
      hour_counters = bump d.hour_counters e hour;
    } in
    record s { client_data = λ k. if str_eq k c then more else s.client_data k }

pub allowed_by : RateLimiter → String → String → Option RateLimitRule → ℕ → ℕ → RateLimiter × Bool
unfolding counted
allowed_by s c e none minute hour = (s, true)
allowed_by s c e (some r) minute hour =
    if leb r.requests_per_minute ((s.client_data c).minute_counters e minute)
    then (s, false)
    else if leb r.requests_per_hour ((s.client_data c).hour_counters e hour)
    then (s, false)
    else (counted s c e minute hour, true)

-- `isAllowed` at a time.
pub is_allowed : RateLimiter → String → String → ℕ → RateLimiter × Bool
unfolding allowed_by get_rule_for_endpoint
is_allowed s c e now = allowed_by s c e (get_rule_for_endpoint s.rules e) (now / 60) (now / 3600)

-- `getRateLimitInfo`; without a rule it is the greatest values of the types, here `none`.
pub get_rate_limit_info : RateLimiter → String → String → ℕ → Option RateLimitInfo
unfolding get_rule_for_endpoint
get_rate_limit_info s c e now = elim (get_rule_for_endpoint s.rules e) [
  | none ↦ none
  | some r ↦ some (record {
    remaining_requests = r.requests_per_minute - (s.client_data c).minute_counters e (now / 60);
    reset_time = (now / 60 + 1) * 60;
    limit = r.requests_per_minute;
  })
]

pub reset_client : RateLimiter → String → RateLimiter
unfolding no_data
reset_client s c = record s { client_data = λ k. if str_eq k c then no_data else s.client_data k }

-- What is left of a counter: the current window, the one before, and any later one stay.
pub recent : (String → ℕ → ℕ) → ℕ → String → ℕ → ℕ
recent counters current e w = if ltb (w + 1) current then 0 else counters e w

pub cleanup_expired_entries : RateLimiter → ℕ → RateLimiter
unfolding recent
cleanup_expired_entries s now = record s {
  client_data = λ k. record {
    minute_counters = recent (s.client_data k).minute_counters (now / 60);
    hour_counters = recent (s.client_data k).hour_counters (now / 3600);
  };
}
