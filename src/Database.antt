-- ===== src/Database.antt =====
-- DatabaseManager of src/database_manager.cpp as far as transactions need it, and TransactionScope
-- of src/exception_handler.cpp. A server is what stands behind the connection pool: whether the
-- pool is healthy, and what one `pqxx::work` that executes a statement and commits comes to. Logs
-- are left out.
pub mod Connections
pub mod Scopes
pub mod Bodies
mod Examples
use rclabs_api.Prelude.{
  String, Bool, true, false, not, ◌&&◌, ◌||◌, Option, none, some, if◌then◌else◌,
}
use rclabs_api.Errors.{ErrorCode, database_error, component_unavailable}

pub record Server (D : Type 0) : Type 0 where
  pub is_connected : D → Bool
  pub transact : String → D → D × Bool

pub record EtlException : Type 0 where
  pub code : ErrorCode
  pub message : String

pub record TransactionScope : Type 0 where
  pub has_manager : Bool
  pub committed : Bool
  pub rollback_on_destroy : Bool

pub data Opened : Type 0 where
  opened : TransactionScope → Opened
  refused : EtlException → Opened

abbrev pub database_exception : String → EtlException
database_exception message = record { code = database_error; message = message }

module _ {D : Type 0} (server : Server D) where
  unfoldable pub execute_query : String → D → D × Bool
  execute_query query d = if server.is_connected d then server.transact query d else (d, false)

  unfoldable pub begin_transaction : D → D × Bool
  unfolding execute_query
  begin_transaction d = if server.is_connected d then execute_query "BEGIN" d else (d, false)

  unfoldable pub commit_transaction : D → D × Bool
  unfolding execute_query
  commit_transaction d = if server.is_connected d then execute_query "COMMIT" d else (d, false)

  unfoldable pub rollback_transaction : D → D × Bool
  unfolding execute_query
  rollback_transaction d = if server.is_connected d then execute_query "ROLLBACK" d else (d, false)

  unfoldable pub begun : D × Bool → D × Opened
  begun (d, true) =
      (d, opened (record { has_manager = true; committed = false; rollback_on_destroy = true }))
  begun (d, false) = (
    d,
    refused (
        database_exception
          "Exception during transaction begin: Failed to begin database transaction"),
  )

  -- The constructor of `TransactionScope`; the flag is whether the manager is there.
  unfoldable pub open_scope : Bool → D → D × Opened
  unfolding begin_transaction begun
  open_scope false d = (
    d,
    refused (record {
      code = component_unavailable;
      message = "Database manager is null in transaction scope";
    }),
  )
  open_scope true d =
      if server.is_connected d
      then begun (begin_transaction d)
      else (d, refused (database_exception "Database not connected when starting transaction"))

  -- Its destructor.
  unfoldable pub close_scope : TransactionScope → D → D
  unfolding rollback_transaction
  close_scope t d =
      if not t.committed && (t.rollback_on_destroy && (t.has_manager && server.is_connected d))
      then (rollback_transaction d).0
      else d

  -- What is left of a scope whose statement came to `r`, or fails with the message.
  unfoldable pub finished :
      TransactionScope → String → D × Bool → (TransactionScope × D) × Option EtlException
  finished t message (d, true) = ((record t { committed = true }, d), none)
  finished t message (d, false) = ((t, d), some (database_exception message))

  unfoldable pub commit : TransactionScope → D → (TransactionScope × D) × Option EtlException
  unfolding commit_transaction finished
  commit t d =
      if t.committed
      then ((t, d), some (database_exception "Transaction already committed"))
      else if not t.has_manager || not (server.is_connected d)
      then ((t, d), some (database_exception "Database not connected when committing transaction"))
      else finished t "Exception during transaction commit: Failed to commit database transaction"
          (commit_transaction d)

  pub rollback : TransactionScope → D → (TransactionScope × D) × Option EtlException
  unfolding rollback_transaction finished
  rollback t d =
      if t.committed
      then ((t, d), some (database_exception "Cannot rollback committed transaction"))
      else if not t.has_manager || not (server.is_connected d)
      then ((t, d), none)
      else finished t
          "Exception during transaction rollback: Failed to rollback database transaction"
          (rollback_transaction d)

  -- The move assignment of `other` to another scope `t`: the new `t`, the new `other`.
  pub move_assign :
      TransactionScope → TransactionScope → D → (TransactionScope × TransactionScope) × D
  unfolding close_scope
  move_assign t other d =
      ((other, record other { has_manager = false; committed = true }), close_scope t d)

-- `setRollbackOnDestroy`
pub set_rollback_on_destroy : TransactionScope → Bool → TransactionScope
set_rollback_on_destroy t rollback_it = record t { rollback_on_destroy = rollback_it }

-- The move constructor.
unfoldable pub move_scope : TransactionScope → TransactionScope × TransactionScope
move_scope other = (other, record other { has_manager = false; committed = true })

-- What is thrown: an exception of the program's own, of the standard library, or any other.
pub data Failure : Type 0 where
  etl : EtlException → Failure
  standard : String → Failure
  unknown : Failure

module _ {D : Type 0} (server : Server D) where
  unfoldable pub scope_commit :
      {J : Type 0} → J → (TransactionScope × D) × Option EtlException → (J × D) × Option Failure
  unfolding close_scope
  scope_commit j ((t, d), none) = ((j, close_scope server t d), none)
  scope_commit j ((t, d), some x) = ((j, close_scope server t d), some (etl x))

  unfoldable pub scope_end :
      {J : Type 0} → TransactionScope → (J × D) × Option Failure → (J × D) × Option Failure
  unfolding commit scope_commit
  scope_end t ((j, d), some f) = ((j, close_scope server t d), some f)
  scope_end t ((j, d), none) = scope_commit j (commit server t d)

  unfoldable pub scope_body :
      {J : Type 0} → J → (D → (J × D) × Option Failure) → D × Opened → (J × D) × Option Failure
  unfolding scope_end
  scope_body j body (d, refused x) = ((j, d), some (etl x))
  scope_body j body (d, opened t) = scope_end t (body d)

  -- A block that opens a scope, does its work on `j`, commits, and destroys the scope on every path.
  unfoldable pub within_scope :
      {J : Type 0} → J → (D → (J × D) × Option Failure) → D → (J × D) × Option Failure
  unfolding open_scope scope_body
  within_scope j body d = scope_body j body (open_scope server true d)
