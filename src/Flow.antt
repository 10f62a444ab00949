-- ===== src/Flow.antt =====
-- ops-enm-parser/src/main/cpp/parse/OZT_Flow: what the interpreter asks of the source manager
-- after a command.
use operations_procedure_sup.Common.{Bool, true, false, [], ◌++◌, Text, codes, if◌then◌else◌}

-- `OZT_Flow::Code`, with a `_flow` behind the names that are words of other types.
pub data FlowCode : Type 0 where
  undefined_flow normal for_setup next goto_label_flow gosub_label_flow : FlowCode
  return_from_gosub_flow include end_of_file pause_flow quit_flow stop_flow : FlowCode
  restart file_halted_flow if_flow else_flow break_flow endif_flow : FlowCode
  switch_flow case_flow default_flow endswitch_flow : FlowCode

-- `OZT_Flow`
pub record Flow : Type 0 where
  pub code : FlowCode
  pub skip_else_flag : Bool
  pub info1 : Text
  pub info2 : Text
  pub info3 : Text

-- `OZT_Flow(code, info1, info2, info3)`
abbrev pub flow_with : FlowCode → Text → Text → Text → Flow
flow_with c a b d = record { code = c; skip_else_flag = false; info1 = a; info2 = b; info3 = d }

-- `OZT_Flow(code)`
abbrev pub flow_of : FlowCode → Flow
flow_of c = flow_with c [] [] []

-- `OZT_Flow(NORMAL)` with `skipElseFlag` set.
abbrev pub normal_skipping : Flow
normal_skipping = record (flow_of normal) { skip_else_flag = true }

closing : Bool → Text
closing skip = if skip then codes ", skipElse)" else codes ")"

-- `toMsg`
unfoldable pub to_msg : Flow → Text
unfolding closing
to_msg f = msg f.code
  where
    msg : FlowCode → Text
    msg undefined_flow = codes "UNDEFINED"
    msg normal = codes "NORMAL"
    msg for_setup =
        codes "FOR_SETUP(" ++ f.info1 ++ codes ", " ++ f.info2 ++ codes ", " ++ f.info3 ++ codes ")"
    msg next = codes "NEXT(" ++ f.info1 ++ codes ")"
    msg goto_label_flow = codes "GOTO(" ++ f.info1 ++ codes ")"
    msg gosub_label_flow = codes "GOSUB(" ++ f.info1 ++ closing f.skip_else_flag
    msg return_from_gosub_flow = codes "RETURN_FROM_GOSUB"
    msg include = codes "INCLUDE(" ++ f.info1 ++ closing f.skip_else_flag
    msg end_of_file = codes "END_OF_FILE"
    msg pause_flow = codes "PAUSE"
    msg quit_flow = codes "QUIT"
    msg stop_flow = codes "STOP"
    msg if_flow = codes "IF"
    msg else_flow = codes "ELSE"
    msg endif_flow = codes "ENDIF"
    msg restart = codes "RESTART"
    msg file_halted_flow = codes "FILE_HALTED"
    msg switch_flow = codes "SWITCH"
    msg case_flow = codes "CASE"
    msg default_flow = codes "DEFAULT"
    msg endswitch_flow = codes "ENDSWITCH"
    msg break_flow = codes "Unknown flow value"
