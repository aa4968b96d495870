-- ===== src/Database/Scopes.antt =====
-- What becomes of a transaction whose scope is left.
use rclabs_api.Prelude.{
  Bool, true, false, ◌&&◌, Option, none, some, List, [], ◌∷◌, ◌≡◌, refl, ap, ◌⊎◌,
}
use rclabs_api.Database.{
  Server, TransactionScope, open_scope, close_scope, commit, rollback, execute_query,
  begin_transaction, rollback_transaction, begun, move_scope, Failure, within_scope, scope_body,
  scope_end, finished, scope_commit, etl, database_exception, commit_transaction,
}

-- What a program does with a scope.
pub data Use : Type 0 where
  commits rolls_back closes moves : Use

module _ {D : Type 0} (server : Server D) where
  abbrev pub use_scope : TransactionScope → D → Use → TransactionScope × D
  use_scope t d commits = (commit server t d).0
  use_scope t d rolls_back = (rollback server t d).0
  use_scope t d closes = (t, close_scope server t d)
  use_scope t d moves = ((move_scope t).0, close_scope server (move_scope t).1 d)

  abbrev pub use_scopes : TransactionScope → D → List Use → TransactionScope × D
  use_scopes t d [] = (t, d)
  use_scopes t d (u ∷ us) = let r = use_scope t d u in use_scopes r.0 r.1 us

  -- A commit of the scope came through, or a rollback of it while the server was connected, and
  -- left the scope and the database so.
  abbrev pub IsFinished : TransactionScope → D → TransactionScope × D → Type 0
  IsFinished t d r =
      (commit server t d ≡ (r, none))
      ⊎ ((t.has_manager && server.is_connected d ≡ true) × (rollback server t d ≡ (r, none)))

-- What a block comes to on a server that stays connected, written over the statements that it
-- sends: BEGIN, and then COMMIT or ROLLBACK, each in a transaction of its own.
module _ {D J : Type 0} (server : Server D) where
  abbrev pub after_commit : J → D × Bool → (J × D) × Option Failure
  after_commit j (d, true) = ((j, d), none)
  after_commit j (d, false) = (
    (j, (server.transact "ROLLBACK" d).0),
    some (
        etl (
          database_exception
            "Exception during transaction commit: Failed to commit database transaction")),
  )

  abbrev pub after_body : (J × D) × Option Failure → (J × D) × Option Failure
  after_body ((j, d), none) = after_commit j (server.transact "COMMIT" d)
  after_body ((j, d), some f) = ((j, (server.transact "ROLLBACK" d).0), some f)

  abbrev pub after_begin : J → (D → (J × D) × Option Failure) → D × Bool → (J × D) × Option Failure
  after_begin j body (d, true) = after_body (body d)
  after_begin j body (d, false) = (
    (j, d),
    some (
        etl (
          database_exception
            "Exception during transaction begin: Failed to begin database transaction")),
  )

abbrev pub new_scope : TransactionScope
new_scope = record { has_manager = true; committed = false; rollback_on_destroy = true }

module _ {D : Type 0} (server : Server D) (up : (d : D) → server.is_connected d ≡ true) where
  close_scope-up : (d : D) → close_scope server new_scope d ≡ (server.transact "ROLLBACK" d).0
  unfolding close_scope rollback_transaction execute_query
  close_scope-up d = rw (up d) refl

module _ {D J : Type 0} (server : Server D) (up : (d : D) → server.is_connected d ≡ true) where
  finished-up :
      (j : J) (x : D × Bool)
      → scope_commit server j (
          finished server new_scope
            "Exception during transaction commit: Failed to commit database transaction" x)
        ≡ after_commit server j x
  unfolding scope_commit finished close_scope
  finished-up j (d, true) = refl
  finished-up j (d, false) =
      ap
        (λ e. (
          (j, e),
          some (
              etl (
                database_exception
                  "Exception during transaction commit: Failed to commit database transaction")),
        ))
        (close_scope-up server up d)

  scope_end-up : (x : (J × D) × Option Failure) → scope_end server new_scope x ≡ after_body server x
  unfolding scope_end commit commit_transaction execute_query
  scope_end-up ((j, d), some f) = ap (λ e. ((j, e), some f)) (close_scope-up server up d)
  scope_end-up ((j, d), none) = rw (up d) (finished-up j (server.transact "COMMIT" d))

  scope_body-up :
      (j : J) (body : D → (J × D) × Option Failure) (x : D × Bool)
      → scope_body server j body (begun server x) ≡ after_begin server j body x
  unfolding scope_body begun
  scope_body-up j body (d, true) = scope_end-up (body d)
  scope_body-up j body (d, false) = refl

  -- On a server that stays connected, a block with a scope comes to BEGIN, its body, and COMMIT or
  -- ROLLBACK, each of the three statements in a transaction of its own. A refused BEGIN is thrown on and
  -- the body not run; a body that throws is followed by ROLLBACK and never by COMMIT, and what it
  -- threw is thrown on; a COMMIT that comes through is the last statement, and one that does not is
  -- followed by ROLLBACK and an exception.
  pub within_scope-after_begin :
      (j : J) (body : D → (J × D) × Option Failure) (d : D)
      → within_scope server j body d ≡ after_begin server j body (server.transact "BEGIN" d)
  unfolding within_scope open_scope begin_transaction execute_query
  within_scope-after_begin j body d = rw (up d) (scope_body-up j body (server.transact "BEGIN" d))
