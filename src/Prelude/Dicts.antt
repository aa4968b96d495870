-- ===== src/Prelude/Dicts.antt =====
-- `std::unordered_map` with texts as keys: its entries in some order, at most one for a key.
use Prim.Native.Nat.{ℕ, suc, ◌≤◌}
use Prim.Native.String.{String}
use mathlib.Core.Path.{◌≡◌, refl}
use mathlib.Core.Bool.{Bool}
use mathlib.Core.Option.{Option, none, some}
use mathlib.Core.List.{List, [], ◌∷◌}
use native.Mathlib.Omega.{arith}
use text.Mathlib.Text.{◌==◌ as str_eq}
use text.Mathlib.TextEquality.{eq_iff}
use rclabs_api.Prelude.Tests.{if◌then◌else◌}
use rclabs_api.Prelude.Lists.{length}

abbrev pub Dict {ℓ} : Type ℓ → Type ℓ
Dict V = List (String × V)

module _ {ℓ} {V : Type ℓ} where
  unfoldable pub lookup : String → Dict V → Option V
  lookup k [] = none
  lookup k ((j, v) ∷ d) = if str_eq j k then some v else lookup k d

  -- `d[k] = v`
  unfoldable pub insert : String → V → Dict V → Dict V
  insert k v [] = (k, v) ∷ []
  insert k v ((j, w) ∷ d) =
      let rest = insert k v d in if str_eq j k then (k, v) ∷ d else (j, w) ∷ rest

  unfoldable pub erase : String → Dict V → Dict V
  erase k [] = []
  erase k ((j, w) ∷ d) = let rest = erase k d in if str_eq j k then rest else (j, w) ∷ rest

  -- The values for which a test holds, in the order of the map.
  unfoldable pub keep_values : (V → Bool) → Dict V → Dict V
  keep_values p [] = []
  keep_values p ((j, w) ∷ d) = let rest = keep_values p d in if p w then (j, w) ∷ rest else rest

  -- The keys and the values in the order of the map.
  unfoldable pub keys : Dict V → List String
  keys [] = []
  keys ((j, w) ∷ d) = j ∷ keys d

  unfoldable pub values : Dict V → List V
  values [] = []
  values ((j, w) ∷ d) = w ∷ values d

  unfoldable pub count_values : (V → Bool) → Dict V → ℕ
  count_values p [] = 0
  count_values p ((j, w) ∷ d) = let rest = count_values p d in if p w then suc rest else rest

  pub lookup-insert :
      (j k : String) (v : V) (d : Dict V)
      → lookup j (insert k v d) ≡ (if str_eq k j then some v else lookup j d)
  unfolding lookup insert
  lookup-insert j k v [] = refl
  lookup-insert j k v ((i, w) ∷ d) =
      ground (arith, lookup-insert j k v d, eq_iff i k, eq_iff i j, eq_iff k j)

  pub lookup-erase :
      (j k : String) (d : Dict V) → lookup j (erase k d) ≡ (if str_eq k j then none else lookup j d)
  unfolding lookup erase
  lookup-erase j k [] = ground arith
  lookup-erase j k ((i, w) ∷ d) =
      ground (arith, lookup-erase j k d, eq_iff i k, eq_iff i j, eq_iff k j)

  pub length-insert : (k : String) (v : V) (d : Dict V) → length (insert k v d) ≤ suc (length d)
  unfolding insert
  length-insert k v [] = omega arith
  length-insert k v ((j, w) ∷ d) = ground (arith, length-insert k v d)

  pub length-erase : (k : String) (d : Dict V) → length (erase k d) ≤ length d
  unfolding erase
  length-erase k [] = omega arith
  length-erase k ((j, w) ∷ d) = ground (arith, length-erase k d)

  pub length-keep_values : (p : V → Bool) (d : Dict V) → length (keep_values p d) ≤ length d
  unfolding keep_values
  length-keep_values p [] = omega arith
  length-keep_values p ((j, w) ∷ d) = ground (arith, length-keep_values p d)
