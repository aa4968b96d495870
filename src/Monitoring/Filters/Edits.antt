-- ===== src/Monitoring/Filters/Edits.antt =====
-- The filters of src/job_monitoring_models.cpp as three sets that a client edits.
use rclabs_api.Prelude.{
  ◌≡◌, refl, sym, ◌∙◌, ◌⊎◌, inl, inr, ◌↔◌, String, Bool, true, false, ◌||◌, List, [], ◌∷◌, Eq,
  string_eq, contains, add_new, remove_first, Distinct, contains-add_new, contains-remove_first,
  remove_first-Distinct, add_new-Distinct, if◌then◌else◌, arith,
}
use rclabs_api.Monitoring.Names.{MessageType, message_type_eq}
use rclabs_api.Monitoring.Filters.{
  ConnectionFilters, no_filters, is_empty, should_receive_job, should_receive_log_level,
  should_receive_message_type, add_job_id, remove_job_id, add_message_type, remove_message_type,
  add_log_level, remove_log_level, clear,
}

pub data Edit : Type 0 where
  adds_job removes_job adds_level removes_level : String → Edit
  adds_type removes_type : MessageType → Edit
  clears : Edit

unfoldable pub edit : ConnectionFilters → Edit → ConnectionFilters
unfolding add_job_id remove_job_id add_log_level remove_log_level add_message_type
    remove_message_type clear
edit f (adds_job id) = add_job_id f id
edit f (removes_job id) = remove_job_id f id
edit f (adds_level level) = add_log_level f level
edit f (removes_level level) = remove_log_level f level
edit f (adds_type t) = add_message_type f t
edit f (removes_type t) = remove_message_type f t
edit f clears = clear f

unfoldable pub edits : ConnectionFilters → List Edit → ConnectionFilters
unfolding edit
edits f [] = f
edits f (e ∷ es) = edits (edit f e) es

-- What a client has asked for, as sets.
pub record Wants : Type 0 where
  pub jobs : String → Bool
  pub levels : String → Bool
  pub types : MessageType → Bool

module _ {ℓ} {A : Type ℓ} ⦃e : Eq A⦄ where
  abbrev pub with_member : (A → Bool) → A → A → Bool
  with_member w a b = if e.beq a b then true else w b

  abbrev pub without_member : (A → Bool) → A → A → Bool
  without_member w a b = if e.beq a b then false else w b

abbrev pub nothing : Wants
nothing = record { jobs = λ _. false; levels = λ _. false; types = λ _. false }

unfoldable pub want : Wants → Edit → Wants
want w (adds_job id) = record w { jobs = with_member w.jobs id }
want w (removes_job id) = record w { jobs = without_member w.jobs id }
want w (adds_level level) = record w { levels = with_member w.levels level }
want w (removes_level level) = record w { levels = without_member w.levels level }
want w (adds_type t) = record w { types = with_member w.types t }
want w (removes_type t) = record w { types = without_member w.types t }
want w clears = nothing

unfoldable pub wanted : Wants → List Edit → Wants
unfolding want
wanted w [] = w
wanted w (e ∷ es) = wanted (want w e) es

-- The list holds the members of the set, each once.
abbrev IsListOf {ℓ} : {A : Type ℓ} ⦃e : Eq A⦄ → (A → Bool) → List A → Type ℓ
IsListOf {A = A} w xs = Distinct xs × ((a : A) → contains xs a ≡ w a)

module _ {ℓ} {A : Type ℓ} ⦃e : Eq A⦄ (w : A → Bool) (xs : List A) (a : A) where
  add_new-IsListOf : IsListOf w xs → IsListOf (with_member w a) (add_new xs a)
  add_new-IsListOf (d, holds) =
      (add_new-Distinct xs a d, λ b. contains-add_new xs a b ∙ ground (arith, holds b))

  remove_first-IsListOf : IsListOf w xs → IsListOf (without_member w a) (remove_first xs a)
  remove_first-IsListOf (d, holds) =
      (remove_first-Distinct xs a d, λ b. contains-remove_first xs a b d ∙ ground (arith, holds b))

abbrev Tracks : Wants → ConnectionFilters → Type 0
Tracks w f =
    IsListOf w.jobs f.job_ids × IsListOf w.levels f.log_levels × IsListOf w.types f.message_types

edit-Tracks :
    (w : Wants) (f : ConnectionFilters) (e : Edit) → Tracks w f → Tracks (want w e) (edit f e)
unfolding edit want add_job_id remove_job_id add_message_type remove_message_type add_log_level
    remove_log_level clear
edit-Tracks w f (adds_job id) (j, l, t) = (add_new-IsListOf w.jobs f.job_ids id j, l, t)
edit-Tracks w f (removes_job id) (j, l, t) = (remove_first-IsListOf w.jobs f.job_ids id j, l, t)
edit-Tracks w f (adds_level level) (j, l, t) =
    (j, add_new-IsListOf w.levels f.log_levels level l, t)
edit-Tracks w f (removes_level level) (j, l, t) =
    (j, remove_first-IsListOf w.levels f.log_levels level l, t)
edit-Tracks w f (adds_type u) (j, l, t) = (j, l, add_new-IsListOf w.types f.message_types u t)
edit-Tracks w f (removes_type u) (j, l, t) =
    (j, l, remove_first-IsListOf w.types f.message_types u t)
edit-Tracks w f clears k = ((tt, λ a. refl), (tt, λ a. refl), (tt, λ a. refl))

edits-Tracks :
    (es : List Edit) (w : Wants) (f : ConnectionFilters)
    → Tracks w f
    → Tracks (wanted w es) (edits f es)
unfolding edits wanted
edits-Tracks [] w f k = k
edits-Tracks (e ∷ es) w f k = edits-Tracks es (want w e) (edit f e) (edit-Tracks w f e k)

-- What a filter lets through: the members, or everything if there are none.
module _ {ℓ} {A : Type ℓ} ⦃e : Eq A⦄ where
  abbrev pub IsLetThrough : (A → Bool) → A → Type ℓ
  IsLetThrough w a = (w a ≡ true) ⊎ ((b : A) → w b ≡ false)

  members_iff :
      (w : A → Bool) (xs : List A) (a : A)
      → IsListOf w xs
      → ((is_empty xs || contains xs a) ≡ true) ↔ IsLetThrough w a
  members_iff w [] a (d, holds) = (λ h. inr (λ b. sym (holds b)), λ h. refl)
  members_iff w (x ∷ xs) a (d, holds) = (
    λ h. inl (sym (holds a) ∙ h),
    λ h. elim h [ inl m ↦ holds a ∙ m | inr none_left ↦ absurd (some_member none_left) ],
  )
    where
      some_member : ¬ ((b : A) → w b ≡ false)
      some_member n = ground (arith, holds x, n x, e.beq_iff x x)

-- After any edits of empty filters, a client receives what belongs to a job exactly if it still
-- wants the job, or if it wants no job any more; likewise for log levels and message types.
pub edits-receives :
    (es : List Edit) (id level : String) (t : MessageType)
    → ((should_receive_job (edits no_filters es) id ≡ true)
        ↔ IsLetThrough (wanted nothing es).jobs id)
      × ((should_receive_log_level (edits no_filters es) level ≡ true)
          ↔ IsLetThrough (wanted nothing es).levels level)
      × ((should_receive_message_type (edits no_filters es) t ≡ true)
          ↔ IsLetThrough (wanted nothing es).types t)
unfolding should_receive_job should_receive_log_level should_receive_message_type no_filters
edits-receives es id level t =
    let (j, l, m) : Tracks (wanted nothing es) (edits no_filters es) =
      edits-Tracks es nothing no_filters ((tt, λ a. refl), (tt, λ a. refl), (tt, λ a. refl)) in
    (members_iff _ _ id j, members_iff _ _ level l, members_iff _ _ t m)
