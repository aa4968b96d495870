-- ===== src/Sockets/Preferences/Requests.antt =====
-- Sequences of requests to the filter manager of src/websocket_filter_manager.cpp.
use rclabs_api.Prelude.{
  ◌≡◌, refl, ◌⊎◌, inl, arith, String, Bool, true, false, not, Option, none, some, List, [], ◌∷◌,
  if◌then◌else◌,
}
use rclabs_api.Monitoring.Names.{string_to_message_type, validate_message_type}
use rclabs_api.Monitoring.Filters.{
  ConnectionFilters, is_valid, validate_job_id, validate_log_level, add_job_id, remove_job_id,
  add_message_type, remove_message_type, add_log_level, remove_log_level, clear,
}
use rclabs_api.Sockets.Connection.{change_filters}
use rclabs_api.Sockets.Manager.{
  change_connection, set_connection_filters, update_connection_filters, clear_connection_filters,
  add_job_filter_to_connection, remove_job_filter_from_connection,
  add_message_type_filter_to_connection, remove_message_type_filter_from_connection,
  add_log_level_filter_to_connection, remove_log_level_filter_from_connection,
}
use rclabs_api.Sockets.Preferences.{
  FilterManager, validate_connection_exists, set_and_save, clear_and_forget,
  apply_filters_to_multiple_connections, clear_filters_from_multiple_connections,
  save_filter_template, load_filter_template, apply_filter_template,
}
use rclabs_api.Sockets.Preferences.Handlers.{
  Response, ok, refused, Parsed, parsed, unreadable, if_valid, set_parsed, update_parsed,
  stored_after, handle_set_connection_filters, handle_update_connection_filters,
  handle_add_job_filter, handle_remove_job_filter, handle_add_message_type_filter,
  handle_remove_message_type_filter, handle_add_log_level_filter, handle_remove_log_level_filter,
  handle_clear_connection_filters,
}
use rclabs_api.Sockets.Preferences.Agreement.{
  Agrees, forgotten-Agrees, stored_after-Agrees, set_and_save-Agrees,
}

pub data Request : Type 0 where
  sets updates : String → Parsed ConnectionFilters → Request
  adds_job removes_job adds_type removes_type adds_level removes_level : String → String → Request
  clears : String → Request
  sets_many : List String → ConnectionFilters → Request
  clears_many : List String → Request
  saves_template : String → ConnectionFilters → Request
  applies_template : String → String → Request

-- The state, and the response of the requests that have one.
unfoldable pub handle : FilterManager → Request → FilterManager × Response
handle f (sets id body) = handle_set_connection_filters f id body
handle f (updates id body) = handle_update_connection_filters f id body
handle f (adds_job id job_id) = handle_add_job_filter f id job_id
handle f (removes_job id job_id) = handle_remove_job_filter f id job_id
handle f (adds_type id name) = handle_add_message_type_filter f id name
handle f (removes_type id name) = handle_remove_message_type_filter f id name
handle f (adds_level id level) = handle_add_log_level_filter f id level
handle f (removes_level id level) = handle_remove_log_level_filter f id level
handle f (clears id) = handle_clear_connection_filters f id
handle f (sets_many ids filters) = (apply_filters_to_multiple_connections f ids filters, ok "")
handle f (clears_many ids) = (clear_filters_from_multiple_connections f ids, ok "")
handle f (saves_template name filters) = (save_filter_template f name filters, ok "")
handle f (applies_template id name) = (apply_filter_template f id name, ok "")

unfoldable pub handle_all : FilterManager → List Request → FilterManager
unfolding handle
handle_all f [] = f
handle_all f (r ∷ rs) = handle_all (handle f r).0 rs

if-Agrees : (b : Bool) (f g : FilterManager) → Agrees f → Agrees g → Agrees (if b then f else g)
if-Agrees true f g a c = a
if-Agrees false f g a c = c

pair-Agrees :
    (b : Bool) (x y : FilterManager × Response)
    → Agrees x.0
    → Agrees y.0
    → Agrees (if b then x else y).0
pair-Agrees true x y a c = a
pair-Agrees false x y a c = c

clear_and_forget-Agrees :
    (f : FilterManager) (id : String) → Agrees f → Agrees (clear_and_forget f id)
unfolding clear_and_forget clear_connection_filters
clear_and_forget-Agrees f id a = forgotten-Agrees f clear id a

sets_many-Agrees :
    (ids : List String) (f : FilterManager) (filters : ConnectionFilters)
    → Agrees f
    → Agrees (apply_filters_to_multiple_connections f ids filters)
unfolding apply_filters_to_multiple_connections
sets_many-Agrees [] f filters a = a
sets_many-Agrees (id ∷ ids) f filters a = sets_many-Agrees ids _ filters (
    if-Agrees (validate_connection_exists f id) (set_and_save f id filters) f
      (set_and_save-Agrees f id filters a) a)

clears_many-Agrees :
    (ids : List String) (f : FilterManager)
    → Agrees f
    → Agrees (clear_filters_from_multiple_connections f ids)
unfolding clear_filters_from_multiple_connections
clears_many-Agrees [] f a = a
clears_many-Agrees (id ∷ ids) f a = clears_many-Agrees ids _ (
    if-Agrees (validate_connection_exists f id) (clear_and_forget f id) f
      (clear_and_forget-Agrees f id a) a)

apply_filter_template-Agrees :
    (f : FilterManager) (id name : String) → Agrees f → Agrees (apply_filter_template f id name)
unfolding apply_filter_template
apply_filter_template-Agrees f id name a = found (load_filter_template f name)
  where
    found :
        (o : Option ConnectionFilters)
        → Agrees (elim o [
          | none ↦ f
          | some filters ↦ if validate_connection_exists f id then set_and_save f id filters else f
        ])
    found none = a
    found (some filters) =
        if-Agrees (validate_connection_exists f id) (set_and_save f id filters) f
          (set_and_save-Agrees f id filters a) a

set_parsed-Agrees :
    (f : FilterManager) (id : String) (body : Parsed ConnectionFilters)
    → Agrees f
    → Agrees (set_parsed f id body).0
unfolding set_parsed if_valid
set_parsed-Agrees f id (parsed filters) a =
    pair-Agrees (not (is_valid filters)) _ (set_and_save f id filters, _) a
      (set_and_save-Agrees f id filters a)
set_parsed-Agrees f id (unreadable what) a = a

update_parsed-set :
    (f : FilterManager) (id : String) (body : Parsed ConnectionFilters)
    → update_parsed f id body ≡ set_parsed f id body
unfolding update_parsed set_parsed set_and_save update_connection_filters set_connection_filters
update_parsed-set f id (parsed filters) = refl
update_parsed-set f id (unreadable what) = refl

-- A request that changes one list of a connection's filters, with the checks in front of it.
module _ (f : FilterManager) (id text : String) (g : ConnectionFilters → ConnectionFilters) where
  unchecked-Agrees :
      (exists : Bool) (r : Response)
      → Agrees f
      → Agrees
          (if not exists
            then (f, r)
            else stored_after f id (change_connection (change_filters g) f.manager id) text).0
  unchecked-Agrees exists r a =
      pair-Agrees (not exists) (f, r) _ a (stored_after-Agrees f g id text a)

  checked-Agrees :
      (exists valid : Bool) (r s : Response)
      → Agrees f
      → Agrees
          (if not exists
            then (f, r)
            else (if not valid
                then (f, s)
                else stored_after f id (change_connection (change_filters g) f.manager id) text)).0
  checked-Agrees exists valid r s a =
      pair-Agrees (not exists) (f, r) _ a
        (pair-Agrees (not valid) (f, s) _ a (stored_after-Agrees f g id text a))

handle-Agrees : (f : FilterManager) (r : Request) → Agrees f → Agrees (handle f r).0
unfolding handle handle_set_connection_filters handle_update_connection_filters
    handle_add_job_filter handle_remove_job_filter handle_add_message_type_filter
    handle_remove_message_type_filter handle_add_log_level_filter handle_remove_log_level_filter
    handle_clear_connection_filters add_job_filter_to_connection remove_job_filter_from_connection
    add_message_type_filter_to_connection remove_message_type_filter_from_connection
    add_log_level_filter_to_connection remove_log_level_filter_from_connection save_filter_template
handle-Agrees f (sets id body) a =
    pair-Agrees (not (validate_connection_exists f id)) _ _ a (set_parsed-Agrees f id body a)
handle-Agrees f (updates id body) a =
    pair-Agrees (not (validate_connection_exists f id)) _ _ a
      (rw (update_parsed-set f id body) (set_parsed-Agrees f id body a))
handle-Agrees f (adds_job id job_id) a =
    checked-Agrees f id _ (λ k. add_job_id k job_id) (validate_connection_exists f id)
      (validate_job_id job_id) _ _ a
handle-Agrees f (removes_job id job_id) a =
    unchecked-Agrees f id _ (λ k. remove_job_id k job_id) (validate_connection_exists f id) _ a
handle-Agrees f (adds_type id name) a =
    checked-Agrees f id _ (λ k. add_message_type k (string_to_message_type name))
      (validate_connection_exists f id) (validate_message_type name) _ _ a
handle-Agrees f (removes_type id name) a =
    unchecked-Agrees f id _ (λ k. remove_message_type k (string_to_message_type name))
      (validate_connection_exists f id) _ a
handle-Agrees f (adds_level id level) a =
    checked-Agrees f id _ (λ k. add_log_level k level) (validate_connection_exists f id)
      (validate_log_level level) _ _ a
handle-Agrees f (removes_level id level) a =
    unchecked-Agrees f id _ (λ k. remove_log_level k level) (validate_connection_exists f id) _ a
handle-Agrees f (clears id) a =
    pair-Agrees (not (validate_connection_exists f id)) _ (clear_and_forget f id, _) a
      (clear_and_forget-Agrees f id a)
handle-Agrees f (sets_many ids filters) a = sets_many-Agrees ids f filters a
handle-Agrees f (clears_many ids) a = clears_many-Agrees ids f a
handle-Agrees f (saves_template name filters) a = a
handle-Agrees f (applies_template id name) a = apply_filter_template-Agrees f id name a

-- Whatever requests come, the preferences stored for a connection that is open stay the filters
-- that it has, if they are so at first.
pub handle_all-Agrees :
    (rs : List Request) (f : FilterManager) → Agrees f → Agrees (handle_all f rs)
unfolding handle_all
handle_all-Agrees [] f a = a
handle_all-Agrees (r ∷ rs) f a = handle_all-Agrees rs (handle f r).0 (handle-Agrees f r a)

pub is_refused : Response → Bool
is_refused (refused status message) = true
is_refused _ = false

-- A request that is answered with an error changes nothing.
pub handle-refused :
    (f : FilterManager) (r : Request) → (is_refused (handle f r).1 ≡ false) ⊎ ((handle f r).0 ≡ f)
unfolding handle handle_set_connection_filters handle_update_connection_filters
    handle_add_job_filter handle_remove_job_filter handle_add_message_type_filter
    handle_remove_message_type_filter handle_add_log_level_filter handle_remove_log_level_filter
    handle_clear_connection_filters is_refused set_parsed update_parsed if_valid stored_after
handle-refused f (sets id (parsed filters)) = ground arith
handle-refused f (sets id (unreadable what)) = ground arith
handle-refused f (updates id (parsed filters)) = ground arith
handle-refused f (updates id (unreadable what)) = ground arith
handle-refused f (adds_job id job_id) = ground arith
handle-refused f (removes_job id job_id) = ground arith
handle-refused f (adds_type id name) = ground arith
handle-refused f (removes_type id name) = ground arith
handle-refused f (adds_level id level) = ground arith
handle-refused f (removes_level id level) = ground arith
handle-refused f (clears id) = ground arith
handle-refused f (sets_many ids filters) = inl refl
handle-refused f (clears_many ids) = inl refl
handle-refused f (saves_template name filters) = inl refl
handle-refused f (applies_template id name) = inl refl
