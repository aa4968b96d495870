-- ===== src/Prelude/Equality.antt =====
-- Types with a Boolean equality, and lists searched, extended and shortened by it.
use Prim.Native.String.{String}
use mathlib.Core.Path.{◌≡◌, refl}
use mathlib.Core.Logic.{◌↔◌, inl, inr}
use mathlib.Core.Bool.{Bool, true, false, ◌||◌}
use mathlib.Core.List.{List, [], ◌∷◌, ◌++◌}
use native.Mathlib.Omega.{arith}
use text.Mathlib.Text.{◌==◌ as str_eq}
use text.Mathlib.TextEquality.{eq_iff}
use rclabs_api.Prelude.Tests.{Bool-cases, if◌then◌else◌}

pub record Eq {ℓ} (A : Type ℓ) : Type ℓ where
  pub beq : A → A → Bool
  pub beq_iff : (a b : A) → (beq a b ≡ true) ↔ (a ≡ b)

instance abbrev pub string_eq : Eq String
string_eq = record { beq = str_eq; beq_iff = eq_iff }

module _ {ℓ} {A : Type ℓ} ⦃e : Eq A⦄ where
  -- `std::find(...) != end()`
  abbrev pub contains : List A → A → Bool
  contains [] a = false
  contains (x ∷ xs) a = e.beq x a || contains xs a

  -- `push_back` unless the value is there.
  unfoldable pub add_new : List A → A → List A
  add_new xs a = if contains xs a then xs else xs ++ (a ∷ [])

  -- `erase` at what `std::find` finds.
  unfoldable pub remove_first : List A → A → List A
  remove_first [] a = []
  remove_first (x ∷ xs) a = let rest = remove_first xs a in if e.beq x a then xs else x ∷ rest

  contains-append :
      (xs ys : List A) (a : A) → contains (xs ++ ys) a ≡ (contains xs a || contains ys a)
  contains-append [] ys a = refl
  contains-append (x ∷ xs) ys a = ground (arith, contains-append xs ys a)

  pub contains-add_new :
      (xs : List A) (a b : A) → contains (add_new xs a) b ≡ (contains xs b || e.beq a b)
  unfolding add_new
  contains-add_new xs a b = ground (arith, contains-append xs (a ∷ []) b, e.beq_iff a b)

  -- What a removal leaves of a list that holds nothing twice.
  abbrev pub Distinct : List A → Type 0
  Distinct [] = Unit
  Distinct (x ∷ xs) = (contains xs x ≡ false) × Distinct xs

  pub contains-remove_first :
      (xs : List A) (a b : A)
      → Distinct xs
      → contains (remove_first xs a) b ≡ (if e.beq a b then false else contains xs b)
  unfolding remove_first
  contains-remove_first [] a b d = ground arith
  contains-remove_first (x ∷ xs) a b (new, d) =
      ground
        (arith, contains-remove_first xs a b d, e.beq_iff x a, e.beq_iff a b, e.beq_iff x b, new)

  pub contains-remove_other :
      (xs : List A) (a b : A) → e.beq a b ≡ false → contains (remove_first xs a) b ≡ contains xs b
  unfolding remove_first
  contains-remove_other [] a b h = refl
  contains-remove_other (x ∷ xs) a b h =
      ground (arith, contains-remove_other xs a b h, e.beq_iff x a, e.beq_iff a b, e.beq_iff x b)

  pub remove_first-Distinct : (xs : List A) (a : A) → Distinct xs → Distinct (remove_first xs a)
  unfolding remove_first
  remove_first-Distinct [] a d = tt
  remove_first-Distinct (x ∷ xs) a (new, d) = elim (Bool-cases (e.beq x a)) [
    | inl same ↦ rw same d
    | inr differ ↦ rw differ (kept, remove_first-Distinct xs a d)
  ]
    where
      kept : contains (remove_first xs a) x ≡ false
      kept = ground (arith, contains-remove_first xs a x d, e.beq_iff a x, new)

  pub add_new-Distinct : (xs : List A) (a : A) → Distinct xs → Distinct (add_new xs a)
  unfolding add_new
  add_new-Distinct xs a d = elim (Bool-cases (contains xs a)) [
    | inl old ↦ rw old d
    | inr new ↦ rw new (pushed xs a d new)
  ]
    where
      pushed :
          (ys : List A) (b : A) → Distinct ys → contains ys b ≡ false → Distinct (ys ++ (b ∷ []))
      pushed [] b d h = (refl, tt)
      pushed (y ∷ ys) b (new, d) h = (
        ground (arith, contains-append ys (b ∷ []) y, e.beq_iff b y, e.beq_iff y b, h, new),
        pushed ys b d (ground (arith, h)),
      )
