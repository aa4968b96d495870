-- ===== src/Exceptions/Policies.antt =====
-- What executeWithHandling comes to.
use rclabs_api.Prelude.{◌≡◌, refl, String}
use rclabs_api.Database.{EtlException, etl, standard, unknown}
use rclabs_api.Exceptions.{
  Result, returned, threw, ExceptionPolicy, propagate, log_and_ignore, log_and_return, retry,
  handle_etl_exception, handle_failure, or_default, execute_with_handling,
}

-- A value in place of what was thrown.
abbrev pub settled : {A : Type 0} → A → Result A → Result A
settled default (returned a) = returned a
settled default (threw f) = returned default

-- What is expected, without a conversion.
abbrev pub expected : {A : Type 0} → A → ExceptionPolicy → Result A → Result A
expected default propagate r = r
expected default retry r = r
expected default log_and_ignore r = settled default r
expected default log_and_return r = settled default r

-- Under the policies that log, what was thrown becomes the default value; under the two others the
-- function's own exception comes out as it was thrown, whatever it would be converted to.
pub execute_with_handling_lem :
    {A : Type 0} (default : A) (convert : String → EtlException) (policy : ExceptionPolicy)
    (r : Result A)
    → execute_with_handling default convert policy r ≡ expected default policy r
unfolding execute_with_handling handle_failure handle_etl_exception or_default
execute_with_handling_lem default convert propagate (returned a) = refl
execute_with_handling_lem default convert propagate (threw (etl x)) = refl
execute_with_handling_lem default convert propagate (threw (standard m)) = refl
execute_with_handling_lem default convert propagate (threw unknown) = refl
execute_with_handling_lem default convert retry (returned a) = refl
execute_with_handling_lem default convert retry (threw (etl x)) = refl
execute_with_handling_lem default convert retry (threw (standard m)) = refl
execute_with_handling_lem default convert retry (threw unknown) = refl
execute_with_handling_lem default convert log_and_ignore (returned a) = refl
execute_with_handling_lem default convert log_and_ignore (threw (etl x)) = refl
execute_with_handling_lem default convert log_and_ignore (threw (standard m)) = refl
execute_with_handling_lem default convert log_and_ignore (threw unknown) = refl
execute_with_handling_lem default convert log_and_return (returned a) = refl
execute_with_handling_lem default convert log_and_return (threw (etl x)) = refl
execute_with_handling_lem default convert log_and_return (threw (standard m)) = refl
execute_with_handling_lem default convert log_and_return (threw unknown) = refl
