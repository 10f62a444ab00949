-- ===== src/Tests/Connections.antt =====
-- The theorem on the connection to a network element, at a network that accepts every name, from a
-- station that is connected and whose errors are checked.
use operations_procedure_sup.Common.{
  ℕ, suc, true, false, not, ◌&&◌, ◌≡◌, refl, [], Text, codes, pos,
}
use operations_procedure_sup.ErrHandling.{is_ok}
use operations_procedure_sup.Tools.Engine.{engine}
use operations_procedure_sup.CmdSender.Connect.{okay, Link, Network, connect, is_empty_name}
use operations_procedure_sup.CmdSender.Connect.Answers.{connect-succeeds}
use operations_procedure_sup.CmdSender.Retries.{with_world}
use operations_procedure_sup.Tests.Commands.{station}

-- A network that counts the disconnections and connections.
abbrev network : Network ℕ
network = record {
  connection_status = λ s. pos 4;
  disconnects = λ s. (okay, with_world (suc s.rest.world) s);
  connects = λ ne_name s. (okay, with_world (suc s.rest.world) s);
  es_ext_info = λ s. pos 120;
  additional_fail_strings = λ s. [];
  csl_exemption_commands = λ s. [];
  set_device_mode = λ strict s. s;
  set_ap_mode = λ ap s. s;
}

abbrev link : Link ℕ
link = record {
  use_device_mode = false;
  conn_idle_to_timer_value = pos 0;
  station = record station {
    rest = record station.rest { errors = record { err_flag = false; checking = true } };
  };
}

abbrev ne_name : Text
ne_name = codes "NE=MSC1"

connect-succeeds_example :
    is_ok (connect network engine ne_name link).0.code
    ≡ (not (is_empty_name engine ne_name) && true)
connect-succeeds_example = connect-succeeds network engine ne_name link refl
