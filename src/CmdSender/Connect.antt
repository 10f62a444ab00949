-- ===== src/CmdSender/Connect.antt =====
-- OZT_CmdSender.C: the connection to a network element. The connection and the command sender of the
-- parser library are parameters, whose calls may call the sender back.
pub mod Answers
use operations_procedure_sup.Common.{
  Bool, true, false, not, ◌||◌, Option, some, none, List, [], ◌∷◌, ◌++◌, Text, codes, ℤ, negsuc,
  eqb_ℤ, if◌then◌else◌,
}
use operations_procedure_sup.ErrHandling.{
  OztResult, Code, of_code, filtered, no_problem, internal_err, invalid_node_id,
  invalid_sessionid_val, invalid_enmuid_val, side_incorrect, cp_incorrect, not_allowed_side,
  value_unreasonable,
}
use operations_procedure_sup.Tools.{CharClass, Piece, one, star, Pattern, Tools, found}
use operations_procedure_sup.SourceInfo.Patterns.{blank, just, word}
use operations_procedure_sup.CmdSender.{Station, with_sender, clear_scan_str}

-- `CHA_Connection::ReturnCode`
pub data ReturnCode : Type 0 where
  okay es_failed_discon es_noreach es_unknown es_is_exclusive : ReturnCode
  es_noauth es_failed_con es_invalid_neid es_invalid_sessionid es_invalid_enmuid : ReturnCode
  es_could_not_connect_to_es es_incorrect_side es_incorrect_cp : ReturnCode
  es_side_not_allowed es_unreasonable_value : ReturnCode

-- The sender with the fields that only the connection uses.
pub record Link (W : Type 0) : Type 0 where
  pub use_device_mode : Bool
  pub conn_idle_to_timer_value : ℤ
  pub station : Station W

-- What `connect` and `disconnect` call outside of the repository's modelled files.
pub record Network (W : Type 0) : Type 0 where
  -- `pConnection`: `getConnectionStatus()`, `disconnect()`, `connect(neName)`, `getEsExtInfo()`
  pub connection_status : Station W → ℤ
  pub disconnects : Station W → ReturnCode × Station W
  pub connects : Text → Station W → ReturnCode × Station W
  pub es_ext_info : Station W → ℤ
  -- `ozt_info.getAdditionalFailStrings` and `getCslExemptionCommands`, for an empty list
  pub additional_fail_strings : Station W → List Text
  pub csl_exemption_commands : Station W → List Text
  -- `setModeOn(25200)` and `setModeOff(25200)` of the device mode, and `setApMode`
  pub set_device_mode : Bool → Station W → Station W
  pub set_ap_mode : Bool → Station W → Station W

-- `^[ \t]*$`
abbrev not_visible : Pattern
not_visible = record { from_start = true; pieces = star blank ∷ []; to_end = true }

-- `^[ \t]*[Nn][Ee][ \t]*=[ \t]*`
abbrev ne_equals : List Piece
ne_equals = star blank ∷ word (codes "ne") ++ star blank ∷ one (just b'=') ∷ star blank ∷ []

-- `^[ \t]*[Nn][Ee][ \t]*[=][ \t]*$`
abbrev ne_not_visible : Pattern
ne_not_visible = record { from_start = true; pieces = ne_equals; to_end = true }

abbrev any_byte : CharClass
any_byte = record { ranges = []; negated = true }

-- `[AaBbCc]`
abbrev side_letter : CharClass
side_letter = record { ranges = (b'A', b'C') ∷ (b'a', b'c') ∷ []; negated = false }

-- `^[ \t]*[Nn][Ee][ \t]*=[ \t]*.*,[ \t]*[Nn][Oo][Dd][Ee][ \t]*=[ \t]*[AaBbCc]`
abbrev node_in_ne_name : Pattern
node_in_ne_name = record {
  from_start = true;
  pieces =
      ne_equals
      ++ star any_byte ∷ one (just b',') ∷ star blank ∷ word (codes "node")
      ++ star blank ∷ one (just b'=') ∷ star blank ∷ one side_letter ∷ [];
  to_end = false;
}

-- Whether the name of a network element is empty.
abbrev pub is_empty_name : Tools → Text → Bool
is_empty_name t ne_name =
    found (t.index not_visible ne_name 0) || found (t.index ne_not_visible ne_name 0)

-- The cases of `connect` other than `OKAY`, `none` for the `default`.
abbrev pub error_of : ReturnCode → Option Code
error_of es_invalid_neid = some invalid_node_id
error_of es_invalid_sessionid = some invalid_sessionid_val
error_of es_invalid_enmuid = some invalid_enmuid_val
error_of es_could_not_connect_to_es = some Code.es_noreach
error_of es_failed_con = some Code.es_failed_con
error_of es_incorrect_side = some side_incorrect
error_of es_incorrect_cp = some cp_incorrect
error_of es_side_not_allowed = some not_allowed_side
error_of es_unreasonable_value = some value_unreasonable
error_of _ = none

abbrev pub in_station : {W : Type 0} → (Station W → Station W) → Link W → Link W
in_station f l = record l { station = f l.station }

-- `useStrictDeviceMode` and `useNonStrictDeviceMode`
unfoldable pub use_strict_device_mode : {W : Type 0} → Link W → Link W
use_strict_device_mode l = record l { use_device_mode = true }

unfoldable pub use_non_strict_device_mode : {W : Type 0} → Link W → Link W
use_non_strict_device_mode l = record l { use_device_mode = false }

-- `return result.filtered()`
abbrev pub answers_filtered : {W : Type 0} → OztResult → Link W → OztResult × Link W
unfolding filtered
answers_filtered result l =
    let s = l.station in
    let (r, h) = filtered result s.rest.errors in
    (r, record l { station = record s { rest = record s.rest { errors = h } } })

-- What `connect` answers where the connection did not succeed.
abbrev pub refused : {W : Type 0} → Option Code → Link W → OztResult × Link W
refused none l = (of_code internal_err, l)
refused (some e) l = answers_filtered (of_code e) l

module _ {W : Type 0} (net : Network W) (t : Tools) where
  -- `setConnectionMode`
  unfoldable pub set_connection_mode : Text → Station W → Station W
  set_connection_mode ne_name s = net.set_ap_mode (found (t.index node_in_ne_name ne_name 0)) s

  -- The case `OKAY` of `connect`: the two lists are read again, and the modes are set.
  abbrev pub connected : Text → Link W → Link W
  unfolding set_connection_mode
  connected ne_name l =
      let s = l.station in
      let s1 =
        with_sender
          (record s.rest.sender {
            extra_fail_strings = net.additional_fail_strings s;
            csl_exemptions_strings = net.csl_exemption_commands s;
          })
          s in
      let s2 = net.set_device_mode l.use_device_mode s1 in
      record l {
        conn_idle_to_timer_value = net.es_ext_info s2;
        station = set_connection_mode ne_name s2;
      }

  -- What `connect` answers for each code of the connection.
  abbrev pub connect_answer : Text → ReturnCode → Link W → OztResult × Link W
  connect_answer ne_name okay l = answers_filtered (of_code no_problem) (connected ne_name l)
  connect_answer ne_name c l = refused (error_of c) l

  -- The disconnection at the start of `connect`, whose code is not read.
  abbrev pub drops_connection : Station W → Station W
  drops_connection s =
      if not (eqb_ℤ (net.connection_status s) (negsuc 0)) then (net.disconnects s).1 else s

  -- `connect`
  unfoldable pub connect : Text → Link W → OztResult × Link W
  unfolding set_connection_mode filtered
  connect ne_name l =
      let l1 = in_station drops_connection l in
      if is_empty_name t ne_name
      then (of_code Code.es_unknown, l1)
      else let (c, s) = net.connects ne_name l1.station in
        connect_answer ne_name c (record l1 { station = s })

-- The codes that `disconnect` tells apart.
abbrev pub disconnect_code : ReturnCode → Code
disconnect_code okay = no_problem
disconnect_code es_failed_discon = Code.es_failed_discon
disconnect_code _ = internal_err

-- `disconnect()`
unfoldable pub disconnect : {W : Type 0} → Network W → Station W → OztResult × Station W
disconnect net s =
    let (c, s1) = net.disconnects (with_sender (clear_scan_str s.rest.sender) s) in
    (of_code (disconnect_code c), s1)
