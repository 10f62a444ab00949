-- ===== src/Orders/Dates.antt =====
-- The dates of AM_auxFunctions.C: the check of a date and a time that a user writes, and the texts
-- of a time. The C library is the `Calendar` of OzTime; `now` is what `gettimeofday` answers, if it
-- does not fail.
pub mod Checked
use operations_procedure_sup.Common.{
  ℕ, ◌+◌, ◌%◌, Bool, true, false, not, ◌&&◌, ◌||◌, [], ◌∷◌, ◌++◌, Option, none, some, Text, codes,
  ◌==◌, if◌then◌else◌, length, get_or, take, is_digit, ℤ, pos, negsuc, minus_one, pos_part, ◌+ℤ◌,
  ◌-ℤ◌, ltb_ℤ, leb_ℤ, eqb_ℤ,
}
use operations_procedure_sup.Value.Convert.{atoi}
use operations_procedure_sup.OzTime.{Tm, Calendar}
use operations_procedure_sup.Orders.{ltoa, am_ok, am_error}

-- `AM_DATE_FORMAT_ERR` and what follows it in AM_Order.H.
abbrev pub am_date_format_err : ℤ
am_date_format_err = negsuc 6

abbrev pub am_time_format_err : ℤ
am_time_format_err = negsuc 7

abbrev pub am_month_range_err : ℤ
am_month_range_err = negsuc 8

abbrev pub am_day_range_err : ℤ
am_day_range_err = negsuc 9

abbrev pub am_hour_range_err : ℤ
am_hour_range_err = negsuc 10

abbrev pub am_minute_range_err : ℤ
am_minute_range_err = negsuc 11

abbrev pub am_old_date : ℤ
am_old_date = negsuc 12

abbrev pub am_year_range_err : ℤ
am_year_range_err = negsuc 16

-- The two bytes from a position, as a text, and whether they are digits.
abbrev pub two_at : Text → ℕ → Text
two_at t i = get_or t i 0 ∷ (get_or t (i + 1) 0 ∷ [])

abbrev pub digits_at : Text → ℕ → Bool
digits_at t i = is_digit (get_or t i 0) && is_digit (get_or t (i + 1) 0)

-- `(year%4 == 0) && (year%100 != 0) || (year%400 == 0)`; the year is not negative.
abbrev pub is_leap : ℤ → Bool
is_leap year =
    (pos_part year % 4 == 0 && not (pos_part year % 100 == 0)) || pos_part year % 400 == 0

-- The switch: whether it lets the day pass.
unfoldable pub passes_switch : ℤ → ℤ → ℤ → Bool
passes_switch year month day =
    if eqb_ℤ month (pos 4) || (eqb_ℤ month (pos 6) || (eqb_ℤ month (pos 9) || eqb_ℤ month (pos 11)))
    then not (ltb_ℤ (pos 30) day)
    else if eqb_ℤ month (pos 2)
    then (if ltb_ℤ (pos 29) day
        then false
        else if is_leap year
        then true
        else not (ltb_ℤ (pos 28) day))
    else true

-- `checkDate`
unfoldable pub check_date : Option ℤ → ℤ → ℤ
check_date none date_time = am_error
check_date (some now) date_time = if leb_ℤ date_time now then am_old_date else am_ok

-- `startDateTime`
abbrev pub start_date_time : ℤ → ℤ → ℤ → ℤ → ℤ → Tm
start_date_time year month day hour minute = record {
  tm_year = year -ℤ pos 1900;
  tm_mon = month -ℤ pos 1;
  tm_mday = day;
  tm_hour = hour;
  tm_min = minute;
  tm_sec = pos 0;
  tm_isdst = minus_one;
}

module _ (cal : Calendar) (now : Option ℤ) where
  -- The end of `checkDateTime`: `mktime` also changes its argument.
  unfoldable pub check_start : Tm → ℤ
  unfolding check_date
  check_start tm =
      let (tm1, secs) = cal.mktime tm in
      let result = check_date now secs in
      if not (eqb_ℤ result am_ok)
      then result
      else (cal.mktime (record tm1 { tm_isdst = minus_one })).1

  -- The part of `checkDateTime` behind the date.
  unfoldable pub check_time : ℤ → ℤ → ℤ → Text → ℤ
  unfolding check_start is_digit
  check_time year month day time =
      let hour = atoi (two_at time 0) in
      let minute = atoi (two_at time 3) in
      if not (digits_at time 0)
      then am_time_format_err
      else if not (digits_at time 3)
      then am_time_format_err
      else if ltb_ℤ (pos 23) hour
      then am_hour_range_err
      else if ltb_ℤ (pos 59) minute
      then am_minute_range_err
      else check_start (start_date_time year month day hour minute)

  -- `checkDateTime`
  unfoldable pub check_date_time : Text → Text → ℤ
  unfolding check_time is_digit
  check_date_time date time =
      let year = atoi (take 4 date) in
      let month = atoi (two_at date 5) in
      let day = atoi (two_at date 8) in
      if not (length date == 10 && (get_or date 4 0 == b'-' && get_or date 7 0 == b'-'))
      then am_date_format_err
      else if not (length time == 5 && get_or time 2 0 == b':')
      then am_time_format_err
      else if not (digits_at date 0) || not (digits_at date 2)
      then am_date_format_err
      else if leb_ℤ (pos 2038) year
      then am_year_range_err
      else if not (digits_at date 5)
      then am_date_format_err
      else if not (digits_at date 8)
      then am_date_format_err
      else if ltb_ℤ (pos 12) month || ltb_ℤ month (pos 1)
      then am_month_range_err
      else if ltb_ℤ (pos 31) day || ltb_ℤ day (pos 1)
      then am_day_range_err
      else if not (passes_switch year month day)
      then am_day_range_err
      else check_time year month day time

-- `itoa`; an `int` has ten digits at most.
abbrev pub itoa : ℤ → Text
itoa z = elim (ltoa z) [ none ↦ [] | some t ↦ t ]

-- A number with a zero in front of one digit.
abbrev pub padded : ℤ → Text
padded z = (if ltb_ℤ z (pos 10) then codes "0" else []) ++ itoa z

module _ (cal : Calendar) where
  -- `timeToDateString`; `none` is NULL.
  unfoldable pub time_to_date_string : ℤ → Option Text
  time_to_date_string datetime =
      let date = cal.localtime datetime in
      if eqb_ℤ datetime (pos 0)
      then none
      else some (
          itoa (pos 1900 +ℤ date.tm_year)
          ++ (codes "-"
              ++ (padded (pos 1 +ℤ date.tm_mon)
                  ++ (codes "-" ++ (padded date.tm_mday ++ codes " ")))))

  -- `timeToTimeString`
  unfoldable pub time_to_time_string : ℤ → Option Text
  time_to_time_string datetime =
      let date = cal.localtime datetime in
      if eqb_ℤ datetime (pos 0)
      then none
      else some (padded date.tm_hour ++ (codes ":" ++ (padded date.tm_min ++ codes " ")))

  -- `timeToString`
  unfoldable pub time_to_string : ℤ → Text
  time_to_string datetime =
      let date = cal.localtime datetime in
      if eqb_ℤ datetime (pos 0)
      then codes "********** ***** "
      else itoa (pos 1900 +ℤ date.tm_year)
        ++ (codes "-"
            ++ (padded (pos 1 +ℤ date.tm_mon)
                ++ (codes "-"
                    ++ (padded date.tm_mday
                        ++ (codes " "
                            ++ (padded date.tm_hour
                                ++ (codes ":" ++ (padded date.tm_min ++ codes " "))))))))
