-- ===== src/Limits/Bounds.antt =====
-- No client gets more than its limit in a window.
use rclabs_api.Prelude.{
  ℕ, suc, ◌+◌, ◌≤◌, ◌<◌, ◌≡◌, refl, sym, subst, ap, ◌∙◌, ◌⊎◌, inl, inr, String, str_eq, eq_iff,
  Bool, true, false, ◌&&◌, Option, none, some, List, [], ◌∷◌, ◌==◌, ==_iff, arith, if◌then◌else◌,
  Bool-cases,
}
use rclabs_api.Limits.{
  RateLimitRule, ClientData, RateLimiter, no_data, get_rule_for_endpoint, counted, is_allowed,
}
use rclabs_api.Limits.Windows.{
  Request, request, in_window, minute_of, hour_of, allowed_in, count_up, counted-minute,
  counted-hour, Decided, allowed_by-Decided,
}

and_split : (a b : Bool) → (a && b) ≡ true → (a ≡ true) × (b ≡ true)
and_split true b h = (refl, h)
and_split false b h = cc

none-some : {A : Type 0} {a : A} → ¬ none ≡ some a
none-some h = cc

same_some : {A : Type 0} {a b : A} → some a ≡ some b → a ≡ b
same_some h = cc

total :
    (b : Bool) (n m more limit : ℕ)
    → m ≡ count_up b n
    → (b ≡ false) ⊎ (n < limit)
    → n ≤ limit
    → (m ≤ limit → m + more ≤ limit)
    → n + (if b then suc more else more) ≤ limit
unfolding count_up
total true n m more limit e (inl no_way) v f = cc
total true n m more limit e (inr h) v f = omega (arith, f (omega arith))
total false n m more limit e h v f = omega (arith, f (omega arith))

same_rules :
    (s : RateLimiter) (q : Request) (o : Option RateLimitRule) (x : RateLimiter × Bool)
    → Decided s q.client q.path (minute_of q.time) (hour_of q.time) o x
    → x.0.rules ≡ s.rules
unfolding Decided counted
same_rules s q none x h = ap (λ (y : RateLimiter × Bool). y.0.rules) h
same_rules s q (some k) x (inl h) = ap (λ (y : RateLimiter × Bool). y.0.rules) h
same_rules s q (some k) x (inr (h, m, n)) = ap (λ (y : RateLimiter × Bool). y.0.rules) h

module _ (get : ClientData → String → ℕ → ℕ) (limit : RateLimitRule → ℕ) (window : ℕ → ℕ)
    (bumped : (s : RateLimiter) (c e : String) (now : ℕ) (d f : String) (w : ℕ)
      → get ((counted s c e (minute_of now) (hour_of now)).client_data d) f w
        ≡ count_up (str_eq d c && (str_eq f e && w == window now)) (get (s.client_data d) f w))
    (below : (s : RateLimiter) (c e : String) (now : ℕ) (r : RateLimitRule)
      → (s.client_data c).minute_counters e (minute_of now) < r.requests_per_minute
      → (s.client_data c).hour_counters e (hour_of now) < r.requests_per_hour
      → get (s.client_data c) e (window now) < limit r)
    (c e : String) (w : ℕ) (r : RateLimitRule) where
  here : RateLimiter → ℕ
  here s = get (s.client_data c) e w

  same_window :
      (q : Request)
      → in_window window c e w q ≡ true
      → (c ≡ q.client) × (e ≡ q.path) × (w ≡ window q.time)
  same_window q h =
      let a = and_split (str_eq c q.client) (str_eq e q.path && w == window q.time) h in
      let b = and_split (str_eq e q.path) (w == window q.time) a.1 in
      ((eq_iff c q.client).0 a.0, (eq_iff e q.path).0 b.0, (==_iff w (window q.time)).0 b.1)

  -- What a request does to the counter of the window.
  Step : RateLimiter → Bool → RateLimiter × Bool → Type 0
  Step s b x =
      (here x.0 ≡ count_up (x.1 && b) (here s)) × (((x.1 && b) ≡ false) ⊎ (here s < limit r))

  refused-Step : (s : RateLimiter) (b : Bool) (x : RateLimiter × Bool) → x ≡ (s, false) → Step s b x
  unfolding Step count_up
  refused-Step s b x h = subst (Step s b) (sym h) (refl, inl refl)

  outside-Step : (s : RateLimiter) (b : Bool) → b ≡ false → Step s b (s, true)
  unfolding Step count_up
  outside-Step s true h = cc
  outside-Step s false h = (refl, inl refl)

  counted-Step :
      (s : RateLimiter) (q : Request) (k : RateLimitRule)
      → ((in_window window c e w q ≡ true) → (k ≡ r))
      → (s.client_data q.client).minute_counters q.path (minute_of q.time) < k.requests_per_minute
      → (s.client_data q.client).hour_counters q.path (hour_of q.time) < k.requests_per_hour
      → Step s
          (in_window window c e w q)
          (counted s q.client q.path (minute_of q.time) (hour_of q.time), true)
  unfolding Step here
  counted-Step s q k found m h = (
    bumped s q.client q.path q.time c e w,
    elim (Bool-cases (in_window window c e w q)) [
      | inl t ↦
          let p = same_window q t in
          let there : here s ≡ get (s.client_data q.client) q.path (window q.time) =
            λ i. get (s.client_data (p.0 i)) (p.1 i) (p.2 i) in
          inr (omega (arith, there, ap limit (found t), below s q.client q.path q.time k m h))
      | inr f ↦ inl f
    ],
  )

  Decided-Step :
      (s : RateLimiter) (q : Request) (o : Option RateLimitRule) (x : RateLimiter × Bool)
      → get_rule_for_endpoint s.rules q.path ≡ o
      → get_rule_for_endpoint s.rules e ≡ some r
      → Decided s q.client q.path (minute_of q.time) (hour_of q.time) o x
      → Step s (in_window window c e w q) x
  unfolding Decided
  Decided-Step s q none x g h d = subst (Step s (in_window window c e w q)) (sym d) (
      outside-Step s (in_window window c e w q) (elim (Bool-cases (in_window window c e w q)) [
        | inl t ↦
            absurd
              (none-some (sym g ∙ sym (ap (get_rule_for_endpoint s.rules) (same_window q t).1) ∙ h))
        | inr f ↦ f
      ]))
  Decided-Step s q (some k) x g h (inl d) = refused-Step s _ x d
  Decided-Step s q (some k) x g h (inr (d, m, n)) =
      subst (Step s (in_window window c e w q)) (sym d) (
        counted-Step s q k
          (λ t.
            same_some (sym g ∙ sym (ap (get_rule_for_endpoint s.rules) (same_window q t).1) ∙ h))
          m n)

  request-Step :
      (s : RateLimiter) (q : Request)
      → get_rule_for_endpoint s.rules e ≡ some r
      → Step s (in_window window c e w q) (is_allowed s q.client q.path q.time)
  unfolding is_allowed
  request-Step s q h =
      let o = get_rule_for_endpoint s.rules q.path in
      Decided-Step s q o _ refl h
        (allowed_by-Decided s q.client q.path o (minute_of q.time) (hour_of q.time))

  request-rules : (s : RateLimiter) (q : Request) → (request s q).rules ≡ s.rules
  unfolding request is_allowed
  request-rules s q =
      let o = get_rule_for_endpoint s.rules q.path in
      same_rules s q o _
        (allowed_by-Decided s q.client q.path o (minute_of q.time) (hour_of q.time))

  -- What was counted before and what is allowed make up the counter, and stay within the limit.
  requests-bound :
      (qs : List Request) (s : RateLimiter)
      → get_rule_for_endpoint s.rules e ≡ some r
      → here s ≤ limit r
      → here s + allowed_in (in_window window c e w) s qs ≤ limit r
  unfolding allowed_in request Step
  requests-bound [] s h v = omega arith
  requests-bound (q ∷ qs) s h v =
      let t = request-Step s q h in
      let x = is_allowed s q.client q.path q.time in
      let more = allowed_in (in_window window c e w) (request s q) qs in
      let kept = ap (λ l. get_rule_for_endpoint l e) (request-rules s q) ∙ h in
      total (x.1 && in_window window c e w q) (here s) (here x.0) more (limit r) t.0 t.1 v
        (λ u. requests-bound qs (request s q) kept u)

-- A client that has made no request yet gets, for an endpoint with a rule, no more requests in a
-- minute than the rule has for a minute, and no more in an hour than it has for an hour, whatever
-- requests come, of whomever, at whatever times.
pub allowed_in-bounds :
    (s : RateLimiter) (c e : String) (r : RateLimitRule) (minute hour : ℕ) (qs : List Request)
    → s.client_data c ≡ no_data
    → get_rule_for_endpoint s.rules e ≡ some r
    → (allowed_in (in_window minute_of c e minute) s qs ≤ r.requests_per_minute)
      × (allowed_in (in_window hour_of c e hour) s qs ≤ r.requests_per_hour)
unfolding no_data here
allowed_in-bounds s c e r minute hour qs fresh h =
    let m : (s.client_data c).minute_counters e minute ≡ 0 =
      λ i. (fresh i).minute_counters e minute in
    let n : (s.client_data c).hour_counters e hour ≡ 0 = λ i. (fresh i).hour_counters e hour in
    (
      omega (
        arith,
        m,
        requests-bound (λ d. d.minute_counters) (λ k. k.requests_per_minute) minute_of
            (λ t d f now. counted-minute t d f (minute_of now) (hour_of now)) (λ t d f now k a b. a)
            c e minute r qs s h (omega (arith, m)),
      ),
      omega (
        arith,
        n,
        requests-bound (λ d. d.hour_counters) (λ k. k.requests_per_hour) hour_of
            (λ t d f now. counted-hour t d f (minute_of now) (hour_of now)) (λ t d f now k a b. b) c
            e hour r qs s h (omega (arith, n)),
      ),
    )
