-- ===== src/Tests/Scheduling.antt =====
-- The theorems on the orders of the scheduler at concrete ones.
use operations_procedure_sup.Common.{
  true, ◌≡◌, refl, arith, inl, inr, [], some, codes, text_eq, pos, Text,
}
use operations_procedure_sup.OzTime.{Tm, Calendar}
use operations_procedure_sup.Orders.{AmOrderData, cleared, am_ok}
use operations_procedure_sup.Orders.Write.{struct_to_string}
use operations_procedure_sup.Orders.Read.{string_to_struct}
use operations_procedure_sup.Orders.Members.{IsHeader, IsScript}
use operations_procedure_sup.Orders.RoundTrip.{IsStorable, kept, string_to_struct-struct_to_string}
use operations_procedure_sup.Orders.Dates.{check_date_time}
use operations_procedure_sup.Orders.Dates.Checked.{
  written_date, written_time, verdict, check_date_time-written_date,
}

-- A script that runs once, with a `#` in its parameters.
abbrev nightly : AmOrderData
nightly = record cleared {
  order_key = pos 7;
  order_type = pos 1;
  filename = some (codes "night.sh");
  user_id = some (codes "ops");
  start_time = pos 1300000000;
  interval_split = pos 0;
  host = some [];
  timestamp = pos 1300000001;
  out_msg_mail = pos 1;
  parameters = some (codes "-n #2");
}

nightly-IsHeader : IsHeader nightly
unfolding text_eq
nightly-IsHeader = record {
  key_fits = omega arith;
  type_fits = omega arith;
  filename_fits = ((refl, (refl, (refl, (refl, (refl, (refl, (refl, (refl, tt)))))))), refl);
  user_fits = ((refl, (refl, (refl, tt))), refl);
  status_fits = omega arith;
  start_fits = omega arith;
  base_fits = omega arith;
  split_fits = omega arith;
  host_fits = (tt, refl);
  tas_fits = omega arith;
  timestamp_fits = omega arith;
}

nightly-IsScript : IsScript nightly
unfolding text_eq
nightly-IsScript = record {
  mail_fits = omega arith;
  parameters_fit = ((refl, (refl, (refl, (refl, (refl, tt))))), refl);
}

nightly-IsStorable : IsStorable nightly
nightly-IsStorable = (nightly-IsHeader, inr (inl (refl, nightly-IsScript)))

string_to_struct-struct_to_string_example :
    (text : Text) × (struct_to_string nightly ≡ some text)
    × (string_to_struct text (some cleared) ≡ (am_ok, some (kept nightly)))
string_to_struct-struct_to_string_example =
    string_to_struct-struct_to_string nightly cleared nightly-IsStorable

abbrev new_year : Tm
new_year = record {
  tm_year = pos 70;
  tm_mon = pos 0;
  tm_mday = pos 1;
  tm_hour = pos 0;
  tm_min = pos 0;
  tm_sec = pos 1;
  tm_isdst = pos 0;
}

-- A calendar in which it is always the same second.
abbrev stopped : Calendar
stopped = record {
  localtime = λ secs. new_year;
  mktime = λ tm. (tm, pos 1);
  date_is_valid = λ tm. true;
  strftime = λ f tm. [];
}

-- The last day of February in a leap year.
check_date_time-written_date_example :
    check_date_time stopped (some (pos 0)) (written_date 2012 2 29) (written_time 23 59)
    ≡ verdict stopped (some (pos 0)) 2012 2 29 23 59
check_date_time-written_date_example =
    check_date_time-written_date stopped (some (pos 0)) 2012 2 29 23 59 (omega arith) (omega arith)
      (omega arith) (omega arith) (omega arith)
