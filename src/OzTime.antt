-- ===== src/OzTime.antt =====
-- ops-enm-parser/src/main/cpp/parse/OZT_Time.C: points in time, in seconds since the epoch. What the
-- C library and `RWDateTime` answer is a parameter, and so is the clock.
pub mod Intervals
pub mod Laws
use operations_procedure_sup.Common.{
  ℕ, zero, suc, ◌+◌, ◌-◌, ◌*◌, Bool, true, false, not, ◌&&◌, ◌||◌, List, [], ◌∷◌, ◌++◌, Option,
  none, some, Text, codes, ltb, leb, ◌==◌, if◌then◌else◌, length, take, drop, ℤ, pos, negsuc,
  minus_one, ◌+ℤ◌, ◌-ℤ◌, ltb_ℤ, leb_ℤ, eqb_ℤ, ◌*ℤ◌,
}
use operations_procedure_sup.Tools.{Tools, Pattern, CharClass, one, found}
use operations_procedure_sup.Value.Words.{wrap32, wrap64}
use operations_procedure_sup.Value.Convert.{atoi}
use operations_procedure_sup.OzTime.Intervals.{convert_interval}

-- `[^0-9]`
abbrev other_than_digit : Pattern
other_than_digit = record {
  from_start = false;
  pieces = one (record { ranges = (b'0', b'9') ∷ []; negated = true }) ∷ [];
  to_end = false;
}

-- `strToInt` of OZT_Misc.C
unfoldable pub str_to_int : Text → ℤ
unfolding atoi
str_to_int = atoi

-- The members of `struct tm` that the program writes.
pub record Tm : Type 0 where
  pub tm_year : ℤ
  pub tm_mon : ℤ
  pub tm_mday : ℤ
  pub tm_hour : ℤ
  pub tm_min : ℤ
  pub tm_sec : ℤ
  pub tm_isdst : ℤ

-- The C library: `mktime` also brings the members of its argument into their ranges.
pub record Calendar : Type 0 where
  pub localtime : ℤ → Tm
  pub mktime : Tm → Tm × ℤ
  -- `RWDateTime(&tm).isValid()`
  pub date_is_valid : Tm → Bool
  -- `strftime`, with a format
  pub strftime : Text → Tm → Text

-- `OZT_Time`
pub record OzTime : Type 0 where
  pub valid : Bool
  pub the_time : ℤ

-- `OZT_Time(time_t)`, and `OZT_Time()` at a reading of the clock.
abbrev pub of_secs : ℤ → OzTime
of_secs t = record { valid = true; the_time = t }

-- `operator+`
unfoldable pub add_secs : OzTime → ℤ → OzTime
add_secs t secs = of_secs (wrap64 (t.the_time +ℤ secs))

-- `operator-`
unfoldable pub difference : OzTime → OzTime → ℤ
difference t1 t2 = wrap64 (t1.the_time -ℤ t2.the_time)

-- `operator+=`
unfoldable pub add_assign : OzTime → ℤ → OzTime
add_assign t secs = if t.valid then record t { the_time = wrap64 (t.the_time +ℤ secs) } else t

-- The comparisons.
unfoldable pub later : OzTime → OzTime → Bool
later t1 t2 = ltb_ℤ t2.the_time t1.the_time

unfoldable pub not_earlier : OzTime → OzTime → Bool
not_earlier t1 t2 = leb_ℤ t2.the_time t1.the_time

unfoldable pub same_time : OzTime → OzTime → Bool
same_time t1 t2 = eqb_ℤ t1.the_time t2.the_time

unfoldable pub other_time : OzTime → OzTime → Bool
other_time t1 t2 = not (eqb_ℤ t1.the_time t2.the_time)

unfoldable pub not_later : OzTime → OzTime → Bool
not_later t1 t2 = leb_ℤ t1.the_time t2.the_time

unfoldable pub earlier : OzTime → OzTime → Bool
earlier t1 t2 = ltb_ℤ t1.the_time t2.the_time

-- `inHistory`, at a reading of the clock.
unfoldable pub in_history : ℤ → OzTime → Bool
unfolding earlier
in_history now t = if t.valid then earlier t (of_secs now) else false

-- The switch of `advance`: the members are `int`.
unfoldable pub step_forward : ℕ → ℤ → Tm → Tm
step_forward ty n tm =
    if ty == b'M'
    then record tm { tm_min = wrap32 (tm.tm_min +ℤ n) }
    else if ty == b'H'
    then record tm { tm_hour = wrap32 (tm.tm_hour +ℤ n) }
    else if ty == b'D'
    then record tm { tm_mday = wrap32 (tm.tm_mday +ℤ n); tm_isdst = minus_one }
    else if ty == b'W'
    then record tm { tm_mday = wrap32 (tm.tm_mday +ℤ wrap32 (pos 7 *ℤ n)); tm_isdst = minus_one }
    else tm

-- The switch of `regress`.
unfoldable pub step_back : ℕ → ℤ → Tm → Tm
step_back ty n tm =
    if ty == b'M'
    then record tm { tm_min = wrap32 (tm.tm_min -ℤ n) }
    else if ty == b'H'
    then record tm { tm_hour = wrap32 (tm.tm_hour -ℤ n) }
    else if ty == b'D'
    then record tm { tm_mday = wrap32 (tm.tm_mday -ℤ n); tm_isdst = minus_one }
    else if ty == b'W'
    then record tm { tm_mday = wrap32 (tm.tm_mday -ℤ wrap32 (pos 7 *ℤ n)); tm_isdst = minus_one }
    else tm

module _ (t : Tools) (cal : Calendar) where
  -- The numbers of a date-time expression, as `OZT_Time(dateTimeExp)` reads them: YYMMDDhhmm.
  unfoldable pub tm_of_expression : Text → Tm
  unfolding str_to_int
  tm_of_expression exp =
      let year = str_to_int (take 2 exp) in
      record {
        tm_year = if ltb_ℤ year (pos 70) then wrap32 (year +ℤ pos 100) else year;
        tm_mon = wrap32 (str_to_int (take 2 (drop 2 exp)) -ℤ pos 1);
        tm_mday = str_to_int (take 2 (drop 4 exp));
        tm_hour = str_to_int (take 2 (drop 6 exp));
        tm_min = str_to_int (take 2 (drop 8 exp));
        tm_sec = pos 0;
        tm_isdst = minus_one;
      }

  -- `OZT_Time(dateTimeExp)`; `theTime` of an invalid time keeps what the memory held, `garbage`.
  unfoldable pub of_expression : ℤ → Text → OzTime
  unfolding tm_of_expression
  of_expression garbage exp =
      if ltb (length exp) 10 || found (t.index other_than_digit (take 10 exp) 0)
      then record { valid = false; the_time = garbage }
      else let tm = tm_of_expression exp in
        if not (cal.date_is_valid tm) || (ltb_ℤ (pos 23) tm.tm_hour || ltb_ℤ (pos 59) tm.tm_min)
        then record { valid = false; the_time = garbage }
        else of_secs (cal.mktime tm).1

  -- The loop of `advance`, on fuel: `clock k` is the reading of the clock in round k.
  unfoldable pub advance_loop : (ℕ → ℤ) → ℕ → ℤ → ℕ → ℕ → Tm → Option ℤ
  advance_loop clock ty n zero k tm = none
  advance_loop clock ty n (suc f) k tm =
      let (tm1, secs) = cal.mktime (step_forward ty n tm) in
      let rest = advance_loop clock ty n f (suc k) tm1 in
      if in_history (clock k) (of_secs secs) then rest else some (cal.mktime tm1).1

  -- `advance`; `none` is a loop that has not ended.
  unfoldable pub advance : (ℕ → ℤ) → ℕ → Text → OzTime → Option (OzTime × Bool)
  advance clock f interval_exp time =
      if not time.valid then some (time, false) else elim (convert_interval t interval_exp) [
        | none ↦ some (time, false)
        | some (n, ty) ↦
            if eqb_ℤ n (pos 0)
            then some (time, false)
            else elim (advance_loop clock ty n f 0 (cal.localtime time.the_time)) [
              | none ↦ none
              | some secs ↦ some (record time { the_time = secs }, true)
            ]
      ]

  -- `regress`
  unfoldable pub regress : Text → OzTime → OzTime × Bool
  unfolding step_back
  regress interval_exp time =
      if not time.valid then (time, false) else elim (convert_interval t interval_exp) [
        | none ↦ (time, false)
        | some (n, ty) ↦ if eqb_ℤ n (pos 0) then (time, false) else (
          record time { the_time = (cal.mktime (step_back ty n (cal.localtime time.the_time))).1 },
          true,
        )
      ]

  -- `toString()`
  unfoldable pub to_string : OzTime → Text
  to_string time =
      if time.valid
      then t.to_upper (cal.strftime (codes "%y%m%d%H%M%S%a") (cal.localtime time.the_time))
      else codes "<invalid date>"

  -- `toString(dayOfWeek)`: the day of the week, and the text.
  unfoldable pub to_string_with_day : OzTime → Text × Text
  unfolding to_string
  to_string_with_day time =
      if time.valid
      then (cal.strftime (codes "%w") (cal.localtime time.the_time), to_string time)
      else ([], codes "<invalid date>")
