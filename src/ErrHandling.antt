-- ===== src/ErrHandling.antt =====
-- ops-enm-parser/src/main/cpp/parse/OZT_ErrHandling: the result codes, the results, and the
-- handler that turns an error into a flag while checking is off.
use operations_procedure_sup.Common.{ℕ, Bool, true, false, ◌||◌, [], Text, if◌then◌else◌}

-- `OZT_Result::Code`
pub data Code : Type 0 where
  undefined no_problem syntax_err invalid_value : Code
  division_by_zero var_undefined invalid_line_no hit_eof : Code
  label_not_found return_without_gosub no_matching_next next_without_matching_for : Code
  endif_without_if no_matching_endif file_open_err break_without_for : Code
  internal_err not_implemented no_matching_endswitch case_without_matching_switch : Code
  default_without_matching_switch endswitch_without_matching_switch file_not_loaded
        include_not_executed :
      Code
  cyclic_include_err mem_alloc_err program_terminated quit : Code
  pause stop file_halted no_file_loaded : Code
  invalid_label duplicate_labels failed busy : Code
  no_connection interrupted no_executable_code program_modified : Code
  inhibit confirm_fail time_expired connection_lost : Code
  not_accepted partly_executed incomplete_command funbusy : Code
  reply_check_fail missing_parameters execute_err no_ui_supported : Code
  path_is_dir file_op_err es_failed_discon es_noreach : Code
  es_unknown es_is_exclusive es_noauth es_failed_con : Code
  not_authorized send_failed centraldir_not_defined privatedir_not_defined : Code
  savedir_not_defined else_without_if iterated_on_same_var printer_list_update_err : Code
  no_such_printer df_reading_err file_logging_err display_not_available : Code
  command_not_supported_as_mentry dialog_timeout mail_sending_failed mail_file_not_found : Code
  maa_not_reachable delay_response_not_received invalid_child_session_id
        child_variable_not_subscribed :
      Code
  child_not_supported not_allowed_in_child_scripts invalid_node_id invalid_sessionid_val : Code
  invalid_enmuid_val could_not_connect_to_ext_system side_incorrect cp_incorrect : Code
  not_allowed_side value_unreasonable : Code

-- `OZT_Result`
pub record OztResult : Type 0 where
  pub code : Code
  pub info : Text
  pub file_name : Text
  pub line_no : ℕ

-- `OZT_Result()`
abbrev pub fresh : OztResult
fresh = record { code = undefined; info = []; file_name = []; line_no = 0 }

-- `OZT_Result(code)`
abbrev pub of_code : Code → OztResult
of_code c = record { code = c; info = []; file_name = []; line_no = 0 }

-- `OZT_Result(code, info)`
abbrev pub of_info : Code → Text → OztResult
of_info c i = record { code = c; info = i; file_name = []; line_no = 0 }

-- `code == NO_PROBLEM`
unfoldable pub is_ok : Code → Bool
is_ok no_problem = true
is_ok _ = false

-- `code == HIT_EOF`
unfoldable pub is_eof : Code → Bool
is_eof hit_eof = true
is_eof _ = false

-- `OZT_ErrHandler`
pub record ErrHandler : Type 0 where
  pub err_flag : Bool
  pub checking : Bool

-- `OZT_ErrHandler::setFlag`
abbrev pub set_flag : ErrHandler → ErrHandler
set_flag h = record h { err_flag = true }

-- `OZT_Result::filtered`
unfoldable pub filtered : OztResult → ErrHandler → OztResult × ErrHandler
unfolding is_ok
filtered r h = if is_ok r.code || h.checking then (r, h) else (of_code no_problem, set_flag h)
