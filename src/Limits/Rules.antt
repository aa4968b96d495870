-- ===== src/Limits/Rules.antt =====
-- Which rule is found for an endpoint.
use mathlib.Core.List.{Memᴰ}
use mathlib.Core.List.Memᴰ.{head, tail}
use native.Mathlib.Nat.{le_trans, le_of_eq}
use rclabs_api.Prelude.{
  ℕ, ◌≤◌, ◌≡◌, refl, ap, subst, sym, ◌∙◌, ◌⊎◌, inl, inr, String, len, Bool, true, false, Option,
  none, some, List, [], ◌∷◌, ltb, ltb→lt, arith, if◌then◌else◌,
}
use rclabs_api.Limits.{RateLimitRule, insert_rule, sort_rules, matches, get_rule_for_endpoint}

-- No rule of the list is longer than `n`.
Within : ℕ → List RateLimitRule → Type 0
Within n rs = (q : RateLimitRule) → Memᴰ q rs → len q.endpoint ≤ n

Sorted : List RateLimitRule → Type 0
Sorted [] = Unit
Sorted (r ∷ rs) = Within (len r.endpoint) rs × Sorted rs

choose_member :
    (b : Bool) (q : RateLimitRule) (xs ys : List RateLimitRule) (P : Type 0)
    → (Memᴰ q xs → P)
    → (Memᴰ q ys → P)
    → Memᴰ q (if b then xs else ys)
    → P
choose_member true q xs ys P f g m = f m
choose_member false q xs ys P f g m = g m

insert-from :
    (r : RateLimitRule) (rs : List RateLimitRule) (q : RateLimitRule)
    → Memᴰ q (insert_rule r rs)
    → (q ≡ r) ⊎ Memᴰ q rs
unfolding insert_rule
insert-from r [] q (head e) = inl e
insert-from r [] q (tail m) = elim m [ ]
insert-from r (x ∷ xs) q m =
    choose_member (ltb (len r.endpoint) (len x.endpoint)) q _ _ _
      (λ k. later (insert-from r xs q) k) (λ k. here k) m
  where
    later :
        (Memᴰ q (insert_rule r xs) → (q ≡ r) ⊎ Memᴰ q xs)
        → Memᴰ q (x ∷ insert_rule r xs)
        → (q ≡ r) ⊎ Memᴰ q (x ∷ xs)
    later f (head e) = inr (head e)
    later f (tail k) = elim (f k) [ inl e ↦ inl e | inr l ↦ inr (tail l) ]

    here : Memᴰ q (r ∷ x ∷ xs) → (q ≡ r) ⊎ Memᴰ q (x ∷ xs)
    here (head e) = inl e
    here (tail k) = inr k

keep_member :
    (b : Bool) (q : RateLimitRule) (xs ys : List RateLimitRule)
    → Memᴰ q xs
    → Memᴰ q ys
    → Memᴰ q (if b then xs else ys)
keep_member true q xs ys f g = f
keep_member false q xs ys f g = g

insert-new : (r : RateLimitRule) (rs : List RateLimitRule) → Memᴰ r (insert_rule r rs)
unfolding insert_rule
insert-new r [] = head refl
insert-new r (x ∷ xs) = keep_member _ r _ _ (tail (insert-new r xs)) (head refl)

insert-old :
    (r : RateLimitRule) (rs : List RateLimitRule) (q : RateLimitRule)
    → Memᴰ q rs
    → Memᴰ q (insert_rule r rs)
unfolding insert_rule
insert-old r [] q m = elim m [ ]
insert-old r (x ∷ xs) q (head e) = keep_member _ q _ _ (head e) (tail (head e))
insert-old r (x ∷ xs) q (tail m) = keep_member _ q _ _ (tail (insert-old r xs q m)) (tail (tail m))

sort-keeps : (rs : List RateLimitRule) (q : RateLimitRule) → Memᴰ q rs → Memᴰ q (sort_rules rs)
unfolding sort_rules
sort-keeps [] q m = elim m [ ]
sort-keeps (r ∷ rs) q (head e) =
    subst (λ k. Memᴰ k (insert_rule r (sort_rules rs))) (sym e) (insert-new r (sort_rules rs))
sort-keeps (r ∷ rs) q (tail m) = insert-old r (sort_rules rs) q (sort-keeps rs q m)

choose-Sorted :
    (b : Bool) (xs ys : List RateLimitRule)
    → (b ≡ true → Sorted xs)
    → (b ≡ false → Sorted ys)
    → Sorted (if b then xs else ys)
choose-Sorted true xs ys f g = f refl
choose-Sorted false xs ys f g = g refl

in_front :
    (r x : RateLimitRule) (xs : List RateLimitRule) (q : RateLimitRule)
    → len x.endpoint ≤ len r.endpoint
    → Within (len x.endpoint) xs
    → Memᴰ q (x ∷ xs)
    → len q.endpoint ≤ len r.endpoint
unfolding Within
in_front r x xs q h w (head e) = subst (λ k. len k.endpoint ≤ len r.endpoint) (sym e) h
in_front r x xs q h w (tail m) = le_trans (w q m) h

ltb→le : (a b : ℕ) → ltb a b ≡ false → b ≤ a
ltb→le a b h = ground arith

insert-Sorted :
    (r : RateLimitRule) (rs : List RateLimitRule) → Sorted rs → Sorted (insert_rule r rs)
unfolding insert_rule Sorted Within
insert-Sorted r [] v = ((λ q m. elim m [ ]), tt)
insert-Sorted r (x ∷ xs) v =
    choose-Sorted (ltb (len r.endpoint) (len x.endpoint)) _ _
      (λ shorter. (
        λ q m. elim (insert-from r xs q m) [
          | inl e ↦
              subst (λ k. len k.endpoint ≤ len x.endpoint) (sym e)
                (omega (arith, ltb→lt (len r.endpoint) (len x.endpoint) shorter))
          | inr k ↦ v.0 q k
        ],
        insert-Sorted r xs v.1,
      ))
      (λ longer. (
        λ q m.
            let first = ltb→le (len r.endpoint) (len x.endpoint) longer in
            in_front r x xs q first v.0 m,
        v,
      ))

sort-Sorted : (rs : List RateLimitRule) → Sorted (sort_rules rs)
unfolding sort_rules Sorted
sort-Sorted [] = tt
sort-Sorted (r ∷ rs) = insert-Sorted r (sort_rules rs) (sort-Sorted rs)

-- None is found and `q` does not match; or the one that is found matches, and is at least as long
-- as `q` if that matches.
abbrev pub Found : RateLimitRule → String → Option RateLimitRule → Type 0
Found q e o =
    ((o ≡ none) × (matches q e ≡ false))
    ⊎ ((r : RateLimitRule) × (o ≡ some r)
        × (matches r e ≡ true)
        × ((matches q e ≡ false) ⊎ (len q.endpoint ≤ len r.endpoint)))

choose-Found :
    (b : Bool) (q r : RateLimitRule) (e : String) (o : Option RateLimitRule)
    → (b ≡ true → Found q e (some r))
    → (b ≡ false → Found q e o)
    → Found q e (if b then some r else o)
choose-Found true q r e o f g = f refl
choose-Found false q r e o f g = g refl

get-matches :
    (rs : List RateLimitRule) (e : String)
    → (get_rule_for_endpoint rs e ≡ none)
      ⊎ ((r : RateLimitRule) × (get_rule_for_endpoint rs e ≡ some r) × (matches r e ≡ true))
unfolding get_rule_for_endpoint
get-matches [] e = inl refl
get-matches (r ∷ rs) e = go (matches r e) refl (get-matches rs e)
  where
    go :
        (b : Bool)
        → matches r e ≡ b
        → (get_rule_for_endpoint rs e ≡ none)
          ⊎ ((k : RateLimitRule) × (get_rule_for_endpoint rs e ≡ some k) × (matches k e ≡ true))
        → let o : Option RateLimitRule = if b then some r else get_rule_for_endpoint rs e in
          (o ≡ none) ⊎ ((k : RateLimitRule) × (o ≡ some k) × (matches k e ≡ true))
    go true h v = inr (r, refl, h)
    go false h v = v

unmatched-Found :
    (q : RateLimitRule) (e : String) (o : Option RateLimitRule)
    → matches q e ≡ false
    → (o ≡ none) ⊎ ((r : RateLimitRule) × (o ≡ some r) × (matches r e ≡ true))
    → Found q e o
unmatched-Found q e o h (inl n) = inl (n, h)
unmatched-Found q e o h (inr (r, s, t)) = inr (r, s, t, inl h)

get-Found :
    (rs : List RateLimitRule) (e : String) (q : RateLimitRule)
    → Sorted rs
    → Memᴰ q rs
    → Found q e (get_rule_for_endpoint rs e)
unfolding get_rule_for_endpoint Sorted Within
get-Found [] e q v m = elim m [ ]
get-Found (r ∷ rs) e q v (head same) =
    choose-Found (matches r e) q r e (get_rule_for_endpoint rs e)
      (λ t. inr (r, refl, t, inr (le_of_eq (ap (λ k. len k.endpoint) same))))
      (λ f.
        unmatched-Found q e (get_rule_for_endpoint rs e) (ap (λ k. matches k e) same ∙ f)
          (get-matches rs e))
get-Found (r ∷ rs) e q v (tail m) =
    choose-Found (matches r e) q r e (get_rule_for_endpoint rs e)
      (λ t. inr (r, refl, t, inr (v.0 q m))) (λ f. get-Found rs e q v.1 m)

-- Of any rules that were added, in whatever order, the one that is found for an endpoint matches
-- it, and no rule that matches it is longer; none is found only if none matches.
pub get_rule_for_endpoint-Found :
    (rs : List RateLimitRule) (e : String) (q : RateLimitRule)
    → Memᴰ q rs
    → Found q e (get_rule_for_endpoint (sort_rules rs) e)
get_rule_for_endpoint-Found rs e q m =
    get-Found (sort_rules rs) e q (sort-Sorted rs) (sort-keeps rs q m)
