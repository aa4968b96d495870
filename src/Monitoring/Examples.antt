-- ===== src/Monitoring/Examples.antt =====
-- Tests of the names and filters of src/job_monitoring_models.cpp, and the witnesses.
use rclabs_api.Prelude.{◌≡◌, refl, ◌↔◌, string_eq, true, false, List, [], ◌∷◌}
use rclabs_api.Jobs.State.{failed, load}
use rclabs_api.Monitoring.Names.{
  message_type_eq, job_progress_update, message_type_to_string, string_to_message_type,
  validate_message_type, job_status_to_string, string_to_job_status, job_type_to_string,
  string_to_job_type,
}
use rclabs_api.Monitoring.Names.RoundTrip.{names_read_back}
use rclabs_api.Monitoring.Filters.{
  ConnectionFilters, no_filters, should_receive_job, should_receive_log_level,
  should_receive_message_type, validate_job_id, validate_log_level, is_valid, get_validation_errors,
}
use rclabs_api.Monitoring.Filters.Edits.{
  Edit, adds_job, removes_job, adds_level, edits, nothing, wanted, IsLetThrough, edits-receives,
}
use rclabs_api.Monitoring.Filters.Validity.{is_valid_iff}

names_read_back_example :
    (string_to_message_type (message_type_to_string job_progress_update) ≡ job_progress_update)
    × (string_to_job_status (job_status_to_string failed) ≡ failed)
    × (string_to_job_type (job_type_to_string load) ≡ load)
    × ((validate_message_type "connection" ≡ true)
        ↔ (message_type_to_string (string_to_message_type "connection") ≡ "connection"))
names_read_back_example = names_read_back job_progress_update failed load "connection"

abbrev some_edits : List Edit
some_edits = adds_job "job-1" ∷ adds_job "job-2" ∷ removes_job "job-1" ∷ adds_level "WARN" ∷ []

-- The last job that is removed lets all jobs through again.
job_is_left_out : should_receive_job (edits no_filters some_edits) "job-1" ≡ false
unfolding should_receive_job edits no_filters
job_is_left_out = refl

no_job_is_left :
    should_receive_job (edits no_filters (adds_job "a" ∷ removes_job "a" ∷ [])) "b" ≡ true
unfolding should_receive_job edits no_filters
no_job_is_left = refl

edits-receives_example :
    ((should_receive_job (edits no_filters some_edits) "job-1" ≡ true)
      ↔ IsLetThrough (wanted nothing some_edits).jobs "job-1")
    × ((should_receive_log_level (edits no_filters some_edits) "INFO" ≡ true)
        ↔ IsLetThrough (wanted nothing some_edits).levels "INFO")
    × ((should_receive_message_type (edits no_filters some_edits) job_progress_update ≡ true)
        ↔ IsLetThrough (wanted nothing some_edits).types job_progress_update)
edits-receives_example = edits-receives some_edits "job-1" "INFO" job_progress_update

abbrev bad_filters : ConnectionFilters
bad_filters = record {
  job_ids = "job-1" ∷ "job 2" ∷ [];
  log_levels = "LOUD" ∷ [];
  message_types = [];
  include_system_notifications = true;
}

errors_are_joined :
    get_validation_errors bad_filters ≡ "Invalid job ID: job 2; Invalid log level: LOUD"
unfolding get_validation_errors validate_job_id validate_log_level
errors_are_joined = refl

is_valid_iff_example : (is_valid bad_filters ≡ true) ↔ (get_validation_errors bad_filters ≡ "")
is_valid_iff_example = is_valid_iff bad_filters
