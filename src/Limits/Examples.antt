-- ===== src/Limits/Examples.antt =====
-- The limiter on concrete requests.
use mathlib.Core.List.Memᴰ.{head}
use rclabs_api.Prelude.{ℕ, ◌≤◌, refl, List, [], ◌∷◌}
use rclabs_api.Limits.{
  RateLimitRule, RateLimiter, rule, no_data, sort_rules, matches, slash_at, get_rule_for_endpoint,
}
use rclabs_api.Limits.Rules.{Found, get_rule_for_endpoint-Found}
use rclabs_api.Limits.Windows.{Request, allowed_in, in_window, minute_of, hour_of}
use rclabs_api.Limits.Bounds.{allowed_in-bounds}

abbrev some_rules : List RateLimitRule
some_rules = rule "/api/jobs" 2 3 ∷ rule "/api/jobs/all" 1 1 ∷ []

get_rule_for_endpoint-Found_example :
    Found
      (rule "/api/jobs" 2 3)
      "/api/jobs/all/now"
      (get_rule_for_endpoint (sort_rules some_rules) "/api/jobs/all/now")
get_rule_for_endpoint-Found_example =
    get_rule_for_endpoint-Found some_rules "/api/jobs/all/now" (rule "/api/jobs" 2 3) (head refl)

abbrev some_limiter : RateLimiter
some_limiter = record { client_data = λ c. no_data; rules = some_rules }

abbrev ask : ℕ → Request
ask time = record { client = "a"; path = "/api/jobs"; time = time }

abbrev asked : List Request
asked = ask 0 ∷ ask 1 ∷ ask 2 ∷ ask 61 ∷ []

allowed_in-bounds_example :
    (allowed_in (in_window minute_of "a" "/api/jobs" 0) some_limiter asked ≤ 2)
    × (allowed_in (in_window hour_of "a" "/api/jobs" 0) some_limiter asked ≤ 3)
unfolding get_rule_for_endpoint matches slash_at
allowed_in-bounds_example =
    allowed_in-bounds some_limiter "a" "/api/jobs" (rule "/api/jobs" 2 3) 0 0 asked refl refl
