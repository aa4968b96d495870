-- ===== src/Monitoring/Filters/Validity.antt =====
-- isValid and getValidationErrors of src/job_monitoring_models.cpp.
use text.Mathlib.TextPositions.{len-append}
use rclabs_api.Prelude.{
  ◌≤◌, ◌<◌, ◌≡◌, refl, sym, ap, ◌∙◌, ◌↔◌, String, str_append, len, Bool, true, false, not, List, [],
  ◌∷◌, ◌++◌, Bool-cases, inl, inr, if◌then◌else◌, arith,
}
use rclabs_api.Monitoring.Filters.{
  ConnectionFilters, validate_job_id, validate_log_level, all_valid, is_valid, errors_of, join_from,
  join_errors, get_validation_errors,
}

join_from-longer : (es : List String) (text : String) → len text ≤ len (join_from text es)
unfolding join_from
join_from-longer [] text = omega arith
join_from-longer (e ∷ es) text = omega (
  arith,
  len-append (str_append text "; ") e,
  len-append text "; ",
  join_from-longer es (str_append (str_append text "; ") e),
)

-- A text that begins with a first error is longer than nothing.
join_errors-some : (e : String) (es : List String) → 0 < len e → 0 < len (join_errors (e ∷ es))
unfolding join_errors
join_errors-some e es h = omega (arith, len-append "" e, join_from-longer es (str_append "" e))

HasError : String → List String → Type 0
HasError text errors = (s : String) × (es : List String) × (errors ≡ str_append text s ∷ es)

module _ (valid : String → Bool) (text : String) where
  errors_of-none : (xs : List String) → all_valid valid xs ≡ true → errors_of valid text xs ≡ []
  unfolding all_valid errors_of
  errors_of-none [] h = refl
  errors_of-none (s ∷ rest) h = elim (Bool-cases (valid s)) [
    | inl good ↦ rw good (
        errors_of-none rest
          (sym (ap (λ (b : Bool). if not b then false else all_valid valid rest) good) ∙ h))
    | inr bad ↦ absurd (bad_first bad)
  ]
    where
      bad_first : ¬ (valid s ≡ false)
      bad_first bad = ground (arith, bad, h)

  errors_of-some :
      (xs : List String) → all_valid valid xs ≡ false → HasError text (errors_of valid text xs)
  unfolding all_valid errors_of HasError
  errors_of-some [] h = absurd (ground (arith, h))
  errors_of-some (s ∷ rest) h = elim (Bool-cases (valid s)) [
    | inl good ↦ rw good (
        errors_of-some rest
          (sym (ap (λ (b : Bool). if not b then false else all_valid valid rest) good) ∙ h))
    | inr bad ↦ rw bad (s, errors_of valid text rest, refl)
  ]

HasError-append :
    (text : String) (xs ys : List String) → HasError text xs → HasError text (xs ++ ys)
unfolding HasError
HasError-append text xs ys (s, es, e) = rw e (s, es ++ ys, refl)

join_errors-HasError :
    (text : String) (xs : List String) → 0 < len text → HasError text xs → 0 < len (join_errors xs)
unfolding HasError
join_errors-HasError text xs h (s, es, e) =
    rw e (join_errors-some (str_append text s) es (omega (arith, len-append text s)))

refuses : (text : String) → 0 < len text → (false ≡ true) ↔ (text ≡ "")
refuses text h = (λ e. absurd (ground (arith, e)), λ e. absurd (empty (ap len e)))
  where
    empty : ¬ (len text ≡ len "")
    empty e = omega (arith, e)

-- A filter is valid exactly if the text of its validation errors is empty.
pub is_valid_iff : (f : ConnectionFilters) → (is_valid f ≡ true) ↔ (get_validation_errors f ≡ "")
unfolding is_valid get_validation_errors join_errors
is_valid_iff f = elim (Bool-cases (all_valid validate_job_id f.job_ids)) [
  | inl ids ↦ elim (Bool-cases (all_valid validate_log_level f.log_levels)) [
    | inl levels ↦
        rw
          (
            ids,
            levels,
            errors_of-none validate_job_id "Invalid job ID: " f.job_ids ids,
            errors_of-none validate_log_level "Invalid log level: " f.log_levels levels,
          )
          (λ _. refl, λ _. refl)
    | inr levels ↦
        rw (ids, levels, errors_of-none validate_job_id "Invalid job ID: " f.job_ids ids)
          (refuses _ (
            join_errors-HasError "Invalid log level: " _ (omega arith)
              (errors_of-some validate_log_level _ f.log_levels levels)))
  ]
  | inr ids ↦ rw ids (
      refuses _ (
        join_errors-HasError "Invalid job ID: " _ (omega arith) (
          HasError-append "Invalid job ID: " _ _ (errors_of-some validate_job_id _ f.job_ids ids))))
]
