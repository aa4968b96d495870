-- ===== src/Monitoring/Filters.antt =====
-- ConnectionFilters, `validateJobId` and `validateLogLevel` of src/job_monitoring_models.cpp: what
-- a WebSocket client wants to receive. An empty list lets everything through.
pub mod Edits
pub mod Validity
use Prim.Native.Char.{Char, code}
use rclabs_api.Prelude.{
  ℕ, ◌+◌, String, str_eq, str_append, len, Bool, true, false, not, ◌&&◌, ◌||◌, ◌==◌, ltb, leb,
  Option, none, some, List, [], ◌∷◌, ◌++◌, length, contains, add_new, remove_first, string_eq,
  if◌then◌else◌,
}
use rclabs_api.Monitoring.Names.{MessageType, system_notification, is_type, message_type_eq}
use rclabs_api.Monitoring.Messages.{WebSocketMessage}

pub record ConnectionFilters : Type 0 where
  pub job_ids : List String
  pub log_levels : List String
  pub message_types : List MessageType
  pub include_system_notifications : Bool

unfoldable pub no_filters : ConnectionFilters
no_filters = record {
  job_ids = [];
  log_levels = [];
  message_types = [];
  include_system_notifications = true;
}

abbrev pub is_empty {ℓ} : {A : Type ℓ} → List A → Bool
is_empty [] = true
is_empty (_ ∷ _) = false

unfoldable pub should_receive_job : ConnectionFilters → String → Bool
should_receive_job f id = is_empty f.job_ids || contains f.job_ids id

unfoldable pub should_receive_log_level : ConnectionFilters → String → Bool
should_receive_log_level f level = is_empty f.log_levels || contains f.log_levels level

unfoldable pub should_receive_message_type : ConnectionFilters → MessageType → Bool
should_receive_message_type f t = is_empty f.message_types || contains f.message_types t

-- `target.has_value() && !shouldReceive(target.value())`
abbrev pub refused : (String → Bool) → Option String → Bool
refused wanted none = false
refused wanted (some target) = not (wanted target)

unfoldable pub should_receive_message : ConnectionFilters → WebSocketMessage → Bool
unfolding should_receive_message_type should_receive_job should_receive_log_level
should_receive_message f m =
    if not (should_receive_message_type f m.message_type)
    then false
    else if refused (should_receive_job f) m.target_job_id
    then false
    else if refused (should_receive_log_level f) m.target_level
    then false
    else if is_type m.message_type system_notification && not f.include_system_notifications
    then false
    else true

unfoldable pub add_job_id : ConnectionFilters → String → ConnectionFilters
unfolding add_new
add_job_id f id = record f { job_ids = add_new f.job_ids id }

unfoldable pub remove_job_id : ConnectionFilters → String → ConnectionFilters
unfolding remove_first
remove_job_id f id = record f { job_ids = remove_first f.job_ids id }

unfoldable pub add_message_type : ConnectionFilters → MessageType → ConnectionFilters
unfolding add_new
add_message_type f t = record f { message_types = add_new f.message_types t }

unfoldable pub remove_message_type : ConnectionFilters → MessageType → ConnectionFilters
unfolding remove_first
remove_message_type f t = record f { message_types = remove_first f.message_types t }

unfoldable pub add_log_level : ConnectionFilters → String → ConnectionFilters
unfolding add_new
add_log_level f level = record f { log_levels = add_new f.log_levels level }

unfoldable pub remove_log_level : ConnectionFilters → String → ConnectionFilters
unfolding remove_first
remove_log_level f level = record f { log_levels = remove_first f.log_levels level }

unfoldable pub clear : ConnectionFilters → ConnectionFilters
clear f = record {
  job_ids = [];
  log_levels = [];
  message_types = [];
  include_system_notifications = true;
}

unfoldable pub has_filters : ConnectionFilters → Bool
has_filters f =
    not (is_empty f.job_ids) || not (is_empty f.message_types) || not (is_empty f.log_levels)

unfoldable pub has_job_filters : ConnectionFilters → Bool
has_job_filters f = not (is_empty f.job_ids)

unfoldable pub has_message_type_filters : ConnectionFilters → Bool
has_message_type_filters f = not (is_empty f.message_types)

unfoldable pub has_log_level_filters : ConnectionFilters → Bool
has_log_level_filters f = not (is_empty f.log_levels)

unfoldable pub get_total_filter_count : ConnectionFilters → ℕ
get_total_filter_count f = length f.job_ids + length f.message_types + length f.log_levels

-- `[a-zA-Z0-9_-]`
job_char : Char → Bool
job_char c =
    leb 97 (code c) && leb (code c) 122
    || leb 65 (code c) && leb (code c) 90
    || leb 48 (code c) && leb (code c) 57
    || code c == 95
    || code c == 45

all_job_chars : String → Bool
unfolding job_char
all_job_chars String.[] = true
all_job_chars (String.◌∷◌ c s) = job_char c && all_job_chars s

-- The pattern also asks for one character at least, which the first test has made sure of.
unfoldable pub validate_job_id : String → Bool
unfolding all_job_chars
validate_job_id id = if str_eq id "" || ltb 100 (len id) then false else all_job_chars id

unfoldable pub validate_log_level : String → Bool
validate_log_level level =
    str_eq level "DEBUG"
    || str_eq level "INFO"
    || str_eq level "WARN"
    || str_eq level "ERROR"
    || str_eq level "FATAL"

all_valid : (String → Bool) → List String → Bool
all_valid valid [] = true
all_valid valid (s ∷ rest) =
    let more = all_valid valid rest in if not (valid s) then false else more

unfoldable pub is_valid : ConnectionFilters → Bool
unfolding all_valid
is_valid f =
    if not (all_valid validate_job_id f.job_ids)
    then false
    else all_valid validate_log_level f.log_levels

errors_of : (String → Bool) → String → List String → List String
errors_of valid text [] = []
errors_of valid text (s ∷ rest) =
    let more = errors_of valid text rest in if not (valid s) then str_append text s ∷ more else more

-- The loop from its second round on, with the text so far.
join_from : String → List String → String
join_from text [] = text
join_from text (e ∷ rest) = join_from (str_append (str_append text "; ") e) rest

join_errors : List String → String
unfolding join_from
join_errors [] = ""
join_errors (e ∷ rest) = join_from (str_append "" e) rest

unfoldable pub get_validation_errors : ConnectionFilters → String
unfolding errors_of join_errors
get_validation_errors f = join_errors (
    errors_of validate_job_id "Invalid job ID: " f.job_ids
    ++ errors_of validate_log_level "Invalid log level: " f.log_levels)
