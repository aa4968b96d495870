-- ===== src/Database/Examples.antt =====
-- Transactions on a database that is the list of the statements that it has run, each in a
-- transaction of its own.
use rclabs_api.Prelude.{◌≡◌, refl, String, Bool, true, false, Option, some, List, [], ◌∷◌, ◌++◌}
use rclabs_api.Database.{
  Server, database_exception, execute_query, Failure, etl, TransactionScope, within_scope,
}
use rclabs_api.Database.Scopes.{Use, commits, rolls_back, closes, moves, within_scope-after_begin}

abbrev log_server : Server (List String)
log_server = record { is_connected = λ d. true; transact = λ query d. (d ++ query ∷ [], true) }

abbrev done_scope : TransactionScope
done_scope = record { has_manager = true; committed = true; rollback_on_destroy = true }

abbrev some_uses : List Use
some_uses = commits ∷ rolls_back ∷ moves ∷ closes ∷ []

abbrev lost : Failure
lost = etl (database_exception "Failed to insert processed data")

-- A row is inserted, and then the body throws.
abbrev insert_then_throw : List String → (Bool × List String) × Option Failure
insert_then_throw d = ((true, (execute_query log_server "INSERT" d).0), some lost)

within_scope-after_begin_example :
    within_scope log_server false insert_then_throw []
    ≡ ((true, "BEGIN" ∷ "INSERT" ∷ "ROLLBACK" ∷ []), some lost)
unfolding execute_query
within_scope-after_begin_example =
    within_scope-after_begin log_server (λ d. refl) false insert_then_throw []
