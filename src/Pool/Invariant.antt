-- ===== src/Pool/Invariant.antt =====
-- The invariant of the pool: its bounds, and that no session is held twice.
use rclabs_api.Prelude.{
  ℕ, suc, ◌+◌, ◌-◌, ◌≤◌, ◌<◌, ◌≡◌, refl, ◌⊎◌, inl, inr, Bool, true, false, List, [], ◌∷◌, ◌++◌,
  arith, length, ◌==◌, if◌then◌else◌, Bool-cases,
}
use rclabs_api.Pool.State.{QueuedRequest, Pool}
use rclabs_api.Pool.Requests.{contains, insert, erase}

abbrev pub count : ℕ → List ℕ → ℕ
count i [] = 0
count i (j ∷ js) = if i == j then suc (count i js) else count i js

-- How often a session is held.
abbrev pub held : List ℕ → List ℕ → ℕ → ℕ
held active idle i = count i active + count i idle

-- The invariant, of the fields that it reads.
pub record Holds (max_connections max_queue_size : ℕ) (active idle : List ℕ)
    (waiting : List QueuedRequest) (next : ℕ) (down : Bool) : Type 0 where
  pub capacity : length active + length idle ≤ max_connections
  pub queue : length waiting ≤ max_queue_size
  pub once : (i : ℕ) → held active idle i ≤ 1
  pub known : (i : ℕ) → (i < next) ⊎ (held active idle i ≡ 0)
  pub stopped : (down ≡ false) ⊎ ((active ≡ []) × (idle ≡ []))

-- The pool and the queue are within their bounds, no session is held twice, whether active or
-- idle, every session held was created, and a pool that is shut down holds none.
abbrev pub Inv : Pool → Type 0
Inv p =
    Holds p.max_connections p.max_queue_size p.active_connections p.idle_connections p.request_queue
      p.next_session p.shutdown_requested

pub count-contains : (i : ℕ) (js : List ℕ) → contains i js ≡ false → count i js ≡ 0
unfolding contains
count-contains i [] h = refl
count-contains i (j ∷ js) h = ground (arith, count-contains i js)

pub count-append : (i : ℕ) (js ks : List ℕ) → count i (js ++ ks) ≡ count i js + count i ks
count-append i [] ks = omega arith
count-append i (j ∷ js) ks = ground (arith, count-append i js ks)

pub count-erase :
    (i j : ℕ) (ks : List ℕ) → count i (erase j ks) ≡ (if i == j then count i ks - 1 else count i ks)
unfolding erase
count-erase i j [] = ground arith
count-erase i j (k ∷ ks) = ground (arith, count-erase i j ks)

pub contains-count : (i : ℕ) (js : List ℕ) → contains i js ≡ true → 0 < count i js
unfolding contains
contains-count i [] h = cc
contains-count i (j ∷ js) h = ground (arith, contains-count i js)

pub count-insert :
    (i j : ℕ) (ks : List ℕ)
    → count j ks ≡ 0
    → count i (insert j ks) ≡ (if i == j then suc (count i ks) else count i ks)
unfolding insert
count-insert i j ks h = elim (Bool-cases (contains j ks)) [
  | inl old ↦ absurd (omega (arith, contains-count j ks old))
  | inr new ↦ rw new refl
]

pub length-insert-le : (j : ℕ) (ks : List ℕ) → length (insert j ks) ≤ suc (length ks)
unfolding insert
length-insert-le j ks = ground arith

pub length-erase-le : (j : ℕ) (ks : List ℕ) → length (erase j ks) ≤ length ks
unfolding erase
length-erase-le j [] = omega arith
length-erase-le j (k ∷ ks) = ground (arith, length-erase-le j ks)

pub length-erase :
    (j : ℕ) (ks : List ℕ) → contains j ks ≡ true → suc (length (erase j ks)) ≡ length ks
unfolding erase contains
length-erase j [] h = cc
length-erase j (k ∷ ks) h = ground (arith, length-erase j ks)
