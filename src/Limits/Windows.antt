-- ===== src/Limits/Windows.antt =====
-- How many requests are allowed in a window.
use rclabs_api.Prelude.{
  ℕ, suc, ◌/◌, ◌<◌, ◌≡◌, refl, sym, ap, ◌∙◌, ◌⊎◌, inl, inr, String, str_eq, Bool, true, false, ◌&&◌,
  Option, none, some, List, [], ◌∷◌, leb, leb→lt, ◌==◌, if◌then◌else◌, eq_iff,
}
use rclabs_api.Limits.{
  RateLimitRule, ClientData, RateLimiter, bump, counted, allowed_by, is_allowed,
}

-- A request of a client for an endpoint at a time.
pub record Request : Type 0 where
  pub client : String
  pub path : String
  pub time : ℕ

unfoldable pub request : RateLimiter → Request → RateLimiter
request s q = (is_allowed s q.client q.path q.time).0

unfoldable pub requests : RateLimiter → List Request → RateLimiter
unfolding request
requests s [] = s
requests s (q ∷ qs) = requests (request s q) qs

-- Whether a request is of a client for an endpoint in a window of time, as `window` numbers them.
abbrev pub in_window : (ℕ → ℕ) → String → String → ℕ → Request → Bool
in_window window c e w q = str_eq c q.client && (str_eq e q.path && w == window q.time)

abbrev pub minute_of : ℕ → ℕ
minute_of now = now / 60

abbrev pub hour_of : ℕ → ℕ
hour_of now = now / 3600

-- How many of the requests that are in a window, as the test says, are allowed.
unfoldable pub allowed_in : (Request → Bool) → RateLimiter → List Request → ℕ
allowed_in window s [] = 0
allowed_in window s (q ∷ qs) =
    let rest = allowed_in window (request s q) qs in
    if (is_allowed s q.client q.path q.time).1 && window q then suc rest else rest

unfoldable pub count_up : Bool → ℕ → ℕ
count_up b n = if b then suc n else n

-- The counter of another client is as it was, and that of the client is as `x` has it.
pick_count :
    (get : ClientData → ℕ) (b up : Bool) (x : ClientData) (s : RateLimiter) (d c : String)
    → (b ≡ true → d ≡ c)
    → get x ≡ count_up up (get (s.client_data c))
    → get (if b then x else s.client_data d) ≡ count_up (b && up) (get (s.client_data d))
unfolding count_up
pick_count get true up x s d c h e =
    e ∙ ap (λ k. count_up up (get (s.client_data k))) (sym (h refl))
pick_count get false up x s d c h e = refl

pub counted-minute :
    (s : RateLimiter) (c e : String) (minute hour : ℕ) (d f : String) (w : ℕ)
    → ((counted s c e minute hour).client_data d).minute_counters f w
      ≡ count_up (str_eq d c && (str_eq f e && w == minute)) ((s.client_data d).minute_counters f w)
unfolding counted bump count_up
counted-minute s c e minute hour d f w =
    pick_count (λ x. x.minute_counters f w) (str_eq d c) (str_eq f e && w == minute) _ s d c
      (λ t. (eq_iff d c).0 t) refl

pub counted-hour :
    (s : RateLimiter) (c e : String) (minute hour : ℕ) (d f : String) (w : ℕ)
    → ((counted s c e minute hour).client_data d).hour_counters f w
      ≡ count_up (str_eq d c && (str_eq f e && w == hour)) ((s.client_data d).hour_counters f w)
unfolding counted bump count_up
counted-hour s c e minute hour d f w =
    pick_count (λ x. x.hour_counters f w) (str_eq d c) (str_eq f e && w == hour) _ s d c
      (λ t. (eq_iff d c).0 t) refl

-- A request for an endpoint with a rule is refused, or counted below both limits; one for an
-- endpoint without a rule is allowed and not counted.
unfoldable pub Decided :
    RateLimiter → String → String → ℕ → ℕ → Option RateLimitRule → RateLimiter × Bool → Type 0
Decided s c e minute hour none x = x ≡ (s, true)
Decided s c e minute hour (some r) x =
    (x ≡ (s, false))
    ⊎ ((x ≡ (counted s c e minute hour, true))
        × ((s.client_data c).minute_counters e minute < r.requests_per_minute)
        × ((s.client_data c).hour_counters e hour < r.requests_per_hour))

pub allowed_by-Decided :
    (s : RateLimiter) (c e : String) (o : Option RateLimitRule) (minute hour : ℕ)
    → Decided s c e minute hour o (allowed_by s c e o minute hour)
unfolding allowed_by Decided
allowed_by-Decided s c e none minute hour = refl
allowed_by-Decided s c e (some r) minute hour =
    go (leb r.requests_per_minute ((s.client_data c).minute_counters e minute))
      (leb r.requests_per_hour ((s.client_data c).hour_counters e hour)) refl refl
  where
    go :
        (b d : Bool)
        → leb r.requests_per_minute ((s.client_data c).minute_counters e minute) ≡ b
        → leb r.requests_per_hour ((s.client_data c).hour_counters e hour) ≡ d
        → let x : RateLimiter × Bool =
            if b then (s, false) else if d then (s, false) else (counted s c e minute hour, true) in
          (x ≡ (s, false))
          ⊎ ((x ≡ (counted s c e minute hour, true))
              × ((s.client_data c).minute_counters e minute < r.requests_per_minute)
              × ((s.client_data c).hour_counters e hour < r.requests_per_hour))
    go true d g h = inl refl
    go false true g h = inl refl
    go false false g h = inr (refl, leb→lt _ _ g, leb→lt _ _ h)
