-- ===== src/Sockets/Preferences/Changes.antt =====
-- What a change of one connection's filters does to the filters of all connections of the manager of
-- src/websocket_manager.cpp.
use rclabs_api.Prelude.{
  ◌≡◌, refl, sym, ◌∙◌, ap, inl, inr, String, str_eq, eq_iff, Bool, true, false, not, Option, none,
  some, lookup, insert, lookup-insert, Bool-cases, if◌then◌else◌, arith,
}
use rclabs_api.Monitoring.Filters.{ConnectionFilters, no_filters}
use rclabs_api.Sockets.Connection.{Connection, change_filters}
use rclabs_api.Sockets.Table.{get_connection}
use rclabs_api.Sockets.Broadcasts.{
  Hub, put_back, changed_in, filters_in, on_connection, get_connection_filters,
}
use rclabs_api.Sockets.Manager.{WebSocketManager, change_connection, filters_of}

abbrev pub open_of : Option Connection → Bool
open_of none = false
open_of (some c) = c.is_open

-- The manager runs, and the connection is in its table and open.
unfoldable pub open_in : WebSocketManager → String → Bool
open_in m id = if not m.running then false else open_of (lookup id m.hub.table.connections)

abbrev if_open : (ConnectionFilters → ConnectionFilters) → Option Connection → Option Connection
if_open g none = none
if_open g (some c) = some (if c.is_open then change_filters g c else c)

-- What a change of a connection's filters does to the table.
lookup-changed_in :
    (g : ConnectionFilters → ConnectionFilters) (h : Hub) (id j : String) (o : Option Connection)
    → lookup id h.table.connections ≡ o
    → lookup j (changed_in (change_filters g) h id o).table.connections ≡ (
        if str_eq id j
        then if_open g (lookup j h.table.connections)
        else lookup j h.table.connections)
unfolding changed_in
lookup-changed_in g h id j none e = elim (Bool-cases (str_eq id j)) [
  | inl same ↦ rw (same, sym ((eq_iff id j).0 same), e) refl
  | inr differ ↦ rw differ refl
]
lookup-changed_in g h id j (some c) e =
    let put_at = lookup-insert j id (change_filters g c) h.table.connections in
    by_cases c.is_open (str_eq id j) refl refl put_at
  where
    at_j : str_eq id j ≡ true → lookup j h.table.connections ≡ some c
    at_j s = ap (λ (k : String). lookup k h.table.connections) (sym ((eq_iff id j).0 s)) ∙ e

    after :
        (up : Bool)
        → c.is_open ≡ up
        → str_eq id j ≡ true
        → if_open g (lookup j h.table.connections) ≡ some (if up then change_filters g c else c)
    after up u s =
        ap (if_open g) (at_j s) ∙ ap (λ (b : Bool). some (if b then change_filters g c else c)) u

    by_cases :
        (up same : Bool)
        → c.is_open ≡ up
        → str_eq id j ≡ same
        → lookup j (insert id (change_filters g c) h.table.connections)
          ≡ (if same then some (change_filters g c) else lookup j h.table.connections)
        → lookup j (if up then put_back h id (change_filters g c) else h).table.connections ≡ (
            if same then if_open g (lookup j h.table.connections) else lookup j h.table.connections)
    by_cases true true u s q = q ∙ sym (after true u s)
    by_cases true false u s q = q
    by_cases false true u s q = at_j s ∙ sym (after false u s)
    by_cases false false u s q = refl

module _ (g : ConnectionFilters → ConnectionFilters) (m : WebSocketManager) (id : String) where
  abbrev pub changed : WebSocketManager
  changed = change_connection (change_filters g) m id

module _ (g : ConnectionFilters → ConnectionFilters) (m : WebSocketManager) (id j : String) where
  table_entry :
      lookup j
        (changed_in
          (change_filters g)
          m.hub
          id
          (lookup id m.hub.table.connections)).table.connections
      ≡ (if str_eq id j
          then if_open g (lookup j m.hub.table.connections)
          else lookup j m.hub.table.connections)
  table_entry = lookup-changed_in g m.hub id j (lookup id m.hub.table.connections) refl

  open_after :
      (b : Bool) (o : Option Connection) → open_of (if b then if_open g o else o) ≡ open_of o
  unfolding change_filters
  open_after b none = ground arith
  open_after b (some c) = ground arith

  pub open_in-changed : open_in (changed g m id) j ≡ open_in m j
  unfolding open_in change_connection on_connection get_connection
  open_in-changed = elim (Bool-cases m.running) [
    | inl on ↦
        rw on (ap open_of table_entry ∙ open_after (str_eq id j) (lookup j m.hub.table.connections))
    | inr off ↦ rw off refl
  ]

  filters_after :
      (b : Bool) (o : Option Connection)
      → filters_in (if b then if_open g o else o)
        ≡ (if b then (if open_of o then g (filters_in o) else filters_in o) else filters_in o)
  unfolding change_filters filters_in
  filters_after b none = ground arith
  filters_after b (some c) = ground arith

  pub filters_of-changed : filters_of (changed g m id) j ≡ (
      if str_eq id j
      then (if open_in m j then g (filters_of m j) else filters_of m j)
      else filters_of m j)
  unfolding open_in filters_of get_connection_filters change_connection on_connection get_connection
  filters_of-changed = elim (Bool-cases m.running) [
    | inl on ↦
        rw on (
          ap filters_in table_entry
          ∙ filters_after (str_eq id j) (lookup j m.hub.table.connections))
    | inr off ↦ rw off (closed_off (str_eq id j))
  ]
    where
      closed_off : (b : Bool) → no_filters ≡ (if b then no_filters else no_filters)
      closed_off b = ground arith
