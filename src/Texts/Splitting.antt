-- ===== src/Texts/Splitting.antt =====
-- Splitting a text and joining the parts, in src/string_utils.cpp.
use rclabs_api.Prelude.{
  ◌≡◌, refl, ap, sym, ◌∙◌, ℕ, zero, suc, ◌<◌, ◌-◌, ◌==◌, Bool, true, false, ◌&&◌, ltb, List, [],
  ◌∷◌, if◌then◌else◌, arith,
}
use rclabs_api.Texts.{first_to, parts_of, split, limited_parts, split_at_most, join, join_rest}

join-first_to :
    (c : ℕ) (parts : List (List ℕ)) (separator : List ℕ)
    → join (first_to c parts) separator ≡ c ∷ join parts separator
unfolding join join_rest
join-first_to c [] separator = refl
join-first_to c (part ∷ parts) separator = refl

filled : List (List ℕ) → Bool
filled [] = false
filled (part ∷ parts) = true

first_to-filled : (c : ℕ) (parts : List (List ℕ)) → filled (first_to c parts) ≡ true
unfolding filled
first_to-filled c [] = refl
first_to-filled c (part ∷ parts) = refl

filled-if :
    (b : Bool) (parts : List (List ℕ)) (c : ℕ) (rest : List (List ℕ))
    → filled (if b then [] ∷ parts else first_to c rest) ≡ true
unfolding filled
filled-if true parts c rest = refl
filled-if false parts c rest = first_to-filled c rest

parts_of-filled : (s : List ℕ) (delimiter : ℕ) → filled (parts_of s delimiter) ≡ true
unfolding parts_of filled
parts_of-filled [] delimiter = refl
parts_of-filled (c ∷ s) delimiter = filled-if (c == delimiter) _ c _

limited_parts-filled : (s : List ℕ) (delimiter n : ℕ) → filled (limited_parts s delimiter n) ≡ true
unfolding limited_parts filled
limited_parts-filled [] delimiter n = refl
limited_parts-filled (c ∷ s) delimiter n = filled-if (ltb 1 n && c == delimiter) _ c _

-- A part that is empty stands for a delimiter in front.
join-empty_part :
    (parts : List (List ℕ)) (delimiter : ℕ)
    → filled parts ≡ true
    → join ([] ∷ parts) (delimiter ∷ []) ≡ delimiter ∷ join parts (delimiter ∷ [])
unfolding join join_rest filled
join-empty_part [] delimiter h = ground arith
join-empty_part (part ∷ parts) delimiter h = refl

-- One more byte in front, which is the delimiter or belongs to the first part.
join-step :
    (b : Bool) (c : ℕ) (s : List ℕ) (delimiter : ℕ) (next rest : List (List ℕ))
    → (b ≡ true → c ≡ delimiter)
    → filled next ≡ true
    → join next (delimiter ∷ []) ≡ s
    → join rest (delimiter ∷ []) ≡ s
    → join (if b then [] ∷ next else first_to c rest) (delimiter ∷ []) ≡ c ∷ s
join-step true c s delimiter next rest same full e f =
    join-empty_part next delimiter full
    ∙ ap (λ t. delimiter ∷ t) e
    ∙ ap (λ d. d ∷ s) (sym (same refl))
join-step false c s delimiter next rest same full e f =
    join-first_to c rest (delimiter ∷ []) ∙ ap (λ t. c ∷ t) f

join-parts_of : (s : List ℕ) (delimiter : ℕ) → join (parts_of s delimiter) (delimiter ∷ []) ≡ s
unfolding parts_of join join_rest
join-parts_of [] delimiter = refl
join-parts_of (c ∷ s) delimiter =
    join-step (c == delimiter) c s delimiter (parts_of s delimiter) (parts_of s delimiter)
      (λ e. ground (arith, e)) (parts_of-filled s delimiter) (join-parts_of s delimiter)
      (join-parts_of s delimiter)

join-limited_parts :
    (s : List ℕ) (delimiter n : ℕ) → join (limited_parts s delimiter n) (delimiter ∷ []) ≡ s
unfolding limited_parts join join_rest
join-limited_parts [] delimiter n = refl
join-limited_parts (c ∷ s) delimiter n =
    join-step (ltb 1 n && c == delimiter) c s delimiter (limited_parts s delimiter (n - 1))
      (limited_parts s delimiter n) (λ e. ground (arith, e))
      (limited_parts-filled s delimiter (n - 1)) (join-limited_parts s delimiter (n - 1))
      (join-limited_parts s delimiter n)

-- A text that is split, at all delimiters or into at most so many parts, more than none, is what
-- joining the parts with the delimiter gives.
pub join-split :
    (s : List ℕ) (delimiter n : ℕ)
    → 0 < n
    → (join (split s delimiter) (delimiter ∷ []) ≡ s)
      × (join (split_at_most s delimiter n) (delimiter ∷ []) ≡ s)
unfolding split split_at_most join
join-split [] delimiter n h = (refl, refl)
join-split (c ∷ s) delimiter zero h = absurd (omega (arith, h))
join-split (c ∷ s) delimiter (suc n) h =
    (join-parts_of (c ∷ s) delimiter, join-limited_parts (c ∷ s) delimiter (suc n))
