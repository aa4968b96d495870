-- ===== src/Database/Connections/Entries.antt =====
-- Whether a connection is in the lists of the pool of src/database_connection_pool.cpp.
use rclabs_api.Prelude.{
  ◌≡◌, refl, ℕ, zero, suc, ◌≤◌, ◌<◌, ◌==◌, Bool, true, false, ◌||◌, Option, none, some, List, [],
  ◌∷◌, ◌++◌, map, drop, if◌then◌else◌, arith,
}
use rclabs_api.Database.Connections.{
  PooledConnection, entry_of, without, younger, new_connection_at, create_connection,
  create_connections, valid_of, marked,
}

-- Whether a connection is in a list of the pool.
abbrev pub has : List PooledConnection → ℕ → Bool
has [] c = false
has (x ∷ xs) c = x.connection == c || has xs c

pub has-append : (xs ys : List PooledConnection) (c : ℕ) → has (xs ++ ys) c ≡ (has xs c || has ys c)
has-append [] ys c = refl
has-append (x ∷ xs) ys c = ground (arith, has-append xs ys c)

pub has-without :
    (xs : List PooledConnection) (k c : ℕ) → has xs c ≡ false → has (without xs k) c ≡ false
unfolding without
has-without [] k c h = refl
has-without (x ∷ xs) k c h = ground (arith, has-without xs k c, h)

pub has-younger :
    (now : ℕ) (xs : List PooledConnection) (c : ℕ)
    → has xs c ≡ false
    → has (younger now xs) c ≡ false
unfolding younger
has-younger now [] c h = refl
has-younger now (x ∷ xs) c h = ground (arith, has-younger now xs c, h)

pub has-drop :
    (n : ℕ) (xs : List PooledConnection) (c : ℕ) → has xs c ≡ false → has (drop n xs) c ≡ false
has-drop zero xs c h = h
has-drop (suc n) [] c h = refl
has-drop (suc n) (x ∷ xs) c h = has-drop n xs c (ground (arith, h))

pub entry_of-other :
    (xs : List PooledConnection) (k c : ℕ) (x : PooledConnection)
    → has xs c ≡ false
    → entry_of xs k ≡ some x
    → (x.connection == c) ≡ false
unfolding entry_of
entry_of-other [] k c x h e = cc
entry_of-other (y ∷ ys) k c x h e = ground (arith, entry_of-other ys k c x, h, e)

module _ (opens : ℕ → Bool) (validates : ℕ → ℕ → Bool) where
  pub has-valid_of :
      (now : ℕ) (xs : List PooledConnection) (c : ℕ)
      → has xs c ≡ false
      → has (valid_of opens validates now xs) c ≡ false
  unfolding valid_of
  has-valid_of now [] c h = refl
  has-valid_of now (x ∷ xs) c h = ground (arith, has-valid_of now xs c, h)

  pub has-marked :
      (now : ℕ) (xs : List PooledConnection) (c : ℕ)
      → has xs c ≡ false
      → has (marked opens validates now xs) c ≡ false
  unfolding marked
  has-marked now [] c h = refl
  has-marked now (x ∷ xs) c h = ground (arith, has-marked now xs c, h)

  -- The numbers of attempts go up.
  abbrev pub IsNewer : ℕ → ℕ × Option ℕ → Type 0
  IsNewer i (j, none) = i ≤ j
  IsNewer i (j, some k) = (i ≤ k) × (i ≤ j) × (k < j)

  pub create_connection-IsNewer :
      (retries i : ℕ) → IsNewer i (create_connection opens validates retries i)
  unfolding create_connection
  create_connection-IsNewer zero i = omega arith
  create_connection-IsNewer (suc retries) i =
      by_attempt (opens i) (create_connection opens validates retries (suc i))
        (create_connection-IsNewer retries (suc i))
    where
      by_attempt :
          (b : Bool) (rest : ℕ × Option ℕ)
          → IsNewer (suc i) rest
          → IsNewer i (if b then (suc i, some i) else rest)
      by_attempt true rest h = (omega arith, omega arith, omega arith)
      by_attempt false (j, none) h = omega (arith, h)
      by_attempt false (j, some k) h = (omega (arith, h.0), omega (arith, h.1), h.2)

  pub create_connections-newer :
      (n retries i c now : ℕ)
      → c < i
      → (has (map (new_connection_at now) (create_connections opens validates n retries i).1) c
          ≡ false)
        × (c < (create_connections opens validates n retries i).0)
  unfolding create_connections new_connection_at
  create_connections-newer zero retries i c now l = (refl, l)
  create_connections-newer (suc n) retries i c now l =
      by_made (create_connection opens validates retries i) (create_connection-IsNewer retries i)
        (λ j m. create_connections-newer n retries j c now m)
    where
      by_made :
          (z : ℕ × Option ℕ)
          → IsNewer i z
          → ((j : ℕ)
              → c < j
              → (has
                    (map (new_connection_at now) (create_connections opens validates n retries j).1)
                    c
                  ≡ false)
                × (c < (create_connections opens validates n retries j).0))
          → let t : ℕ × List ℕ = elim z.1 as (λ _. ℕ × List ℕ) [
            | none ↦ (z.0, [])
            | some k ↦ (
              (create_connections opens validates n retries z.0).0,
              k ∷ (create_connections opens validates n retries z.0).1,
            )
          ] in
            (has (map (new_connection_at now) t.1) c ≡ false) × (c < t.0)
      by_made (j, none) h ih = (refl, omega (arith, l, h))
      by_made (j, some k) h ih =
          let m : c < j = omega (arith, l, h.1) in (ground (arith, (ih j m).0, h.0, l), (ih j m).1)
