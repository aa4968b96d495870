-- ===== src/Monitor/Defined.antt =====
-- Properties of the monitor of src/job_monitor_service.cpp that hold if nothing undefined happens.
use rclabs_api.Prelude.{
  ◌≡◌, refl, Bool, true, false, not, Option, none, some, ◌>>=◌, if◌then◌else◌, arith,
}
use rclabs_api.Monitor.{Monitor}

-- A property of the monitor, if nothing undefined has happened.
unfoldable pub IfDefined : (Monitor → Type 0) → Option Monitor → Type 0
IfDefined P none = Unit
IfDefined P (some s) = P s

pub then-IfDefined {ℓ} :
    {A : Type ℓ} (P : Monitor → Type 0) (o : Option A) (f : A → Option Monitor)
    → ((a : A) → IfDefined P (f a))
    → IfDefined P (o >>= f)
unfolding IfDefined
then-IfDefined P none f h = tt
then-IfDefined P (some a) f h = h a

pub after-IfDefined :
    (P Q : Monitor → Type 0) (o : Option Monitor) (f : Monitor → Option Monitor)
    → IfDefined P o
    → ((s : Monitor) → P s → IfDefined Q (f s))
    → IfDefined Q (o >>= f)
unfolding IfDefined
after-IfDefined P Q none f k h = tt
after-IfDefined P Q (some s) f k h = h s k

pub then-none :
    (P : Monitor → Type 0) (o : Option Monitor) (f : Monitor → Option Monitor)
    → IfDefined P o
    → ((s : Monitor) → P s → f s ≡ none)
    → (o >>= f) ≡ none
unfolding IfDefined
then-none P none f k h = refl
then-none P (some s) f k h = h s k

pub choose-IfDefined :
    (P : Monitor → Type 0) (b : Bool) (x y : Option Monitor)
    → IfDefined P x
    → IfDefined P y
    → IfDefined P (if b then x else y)
unfolding IfDefined
choose-IfDefined P true x y h k = h
choose-IfDefined P false x y h k = k

pub some-IfDefined : (P : Monitor → Type 0) (s : Monitor) → P s → IfDefined P (some s)
unfolding IfDefined
some-IfDefined P s h = h

-- Of a monitor that runs, only the second branch is taken.
pub running-IfDefined :
    (P : Monitor → Type 0) (b : Bool) (x y : Option Monitor)
    → b ≡ true
    → IfDefined P y
    → IfDefined P (if not b then x else y)
running-IfDefined P true x y h k = k
running-IfDefined P false x y h k = ground arith

-- A step that gives a value goes on with it.
pub then-some :
    {A : Type 0} {B : Type 0} (o : Option A) (a : A) (f : A → Option B) (b : Option B)
    → o ≡ some a
    → f a ≡ b
    → (o >>= f) ≡ b
then-some o a f b h k = rw (h, k) refl

pub else_branch : {A : Type 0} (b : Bool) (x y : A) → b ≡ true → (if not b then x else y) ≡ y
else_branch true x y h = refl
else_branch false x y h = ground arith

pub then_branch : {A : Type 0} (b : Bool) (x y : A) → b ≡ true → (if b then x else y) ≡ x
then_branch true x y h = refl
then_branch false x y h = ground arith
