-- ===== src/Database/Bodies.antt =====
-- What a block within a transaction passes on of its body.
use rclabs_api.Prelude.{true, Option, none, some, ◌≡◌, refl, ◌⊎◌, inl, inr, subst, sym}
use rclabs_api.Database.{
  Server, EtlException, Failure, etl, TransactionScope, Opened, opened, refused, open_scope, commit,
  within_scope, scope_body, scope_end, scope_commit,
}

-- Something was thrown.
abbrev pub Threw {ℓ} : {A : Type ℓ} → Option A → Type ℓ
Threw {A = A} o = (f : A) × (o ≡ some f)

module _ {D J : Type 0} (server : Server D) where
  scope_commit-same :
      (j : J) (r : (TransactionScope × D) × Option EtlException) → (scope_commit server j r).0.0 ≡ j
  unfolding scope_commit
  scope_commit-same j ((t, d), none) = refl
  scope_commit-same j ((t, d), some x) = refl

  -- A property of what the body works on, that it has before and after the body, it has after the
  -- block.
  pub within_scope-keeps :
      (P : J → Type 0) (j : J) (body : D → (J × D) × Option Failure) (d : D)
      → P j
      → ((e : D) → P (body e).0.0)
      → P (within_scope server j body d).0.0
  unfolding within_scope scope_end scope_body
  within_scope-keeps P j body d v h = go (open_scope server true d)
    where
      end :
          (t : TransactionScope) (x : (J × D) × Option Failure)
          → P x.0.0
          → P (scope_end server t x).0.0
      end t ((k, e), some f) w = w
      end t ((k, e), none) w = subst P (sym (scope_commit-same k (commit server t e))) w

      go : (o : D × Opened) → P (scope_body server j body o).0.0
      go (e, refused x) = v
      go (e, opened t) = end t (body e) (h e)

  -- If the body throws or ends with the property, so does the block.
  pub within_scope-unless :
      (P : J → Type 0) (j : J) (body : D → (J × D) × Option Failure) (d : D)
      → ((e : D) → Threw (body e).1 ⊎ P (body e).0.0)
      → Threw (within_scope server j body d).1 ⊎ P (within_scope server j body d).0.0
  unfolding within_scope scope_end scope_body
  within_scope-unless P j body d h = go (open_scope server true d)
    where
      end :
          (t : TransactionScope) (x : (J × D) × Option Failure)
          → Threw x.1 ⊎ P x.0.0
          → Threw (scope_end server t x).1 ⊎ P (scope_end server t x).0.0
      end t ((k, e), some f) w = inl (f, refl)
      end t ((k, e), none) (inl (f, none_is_some)) = cc
      end t ((k, e), none) (inr w) = inr (subst P (sym (scope_commit-same k (commit server t e))) w)

      go :
          (o : D × Opened)
          → Threw (scope_body server j body o).1 ⊎ P (scope_body server j body o).0.0
      go (e, refused x) = inl (etl x, refl)
      go (e, opened t) = end t (body e) (h e)
