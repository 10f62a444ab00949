-- ===== src/Orders/Dates/Checked.antt =====
-- `checkDateTime` of a date and a time as they are written, against the lengths of the months.
use operations_procedure_sup.Common.{
  ℕ, zero, suc, ◌+◌, ◌/◌, ◌%◌, ◌<◌, Bool, true, false, not, ◌||◌, ◌≡◌, refl, ap, ◌∙◌, inl, inr,
  arith, [], ◌∷◌, Option, Text, ◌==◌, leb, ltb, if◌then◌else◌, get_or, is_digit, ℤ, pos, Bool-cases,
  ltb_ℤ,
}
use native.Mathlib.Nat.{add-zero}
use operations_procedure_sup.Value.Digits.{some_digits, all_digits, digits_value}
use operations_procedure_sup.Value.Words.{wrap32, wrap32_id}
use operations_procedure_sup.Value.Convert.{atoi}
use operations_procedure_sup.Value.Convert.Laws.{atol-some_digits}
use operations_procedure_sup.OzTime.{Calendar}
use operations_procedure_sup.Orders.Dates.{
  am_year_range_err, am_month_range_err, am_day_range_err, am_hour_range_err, am_minute_range_err,
  is_leap, passes_switch, start_date_time, check_start, check_time, check_date_time,
}

-- Two and four digits.
abbrev pub two : ℕ → Text
two n = (48 + n / 10) ∷ ((48 + n % 10) ∷ [])

abbrev pub written_date : ℕ → ℕ → ℕ → Text
written_date y m d =
    (48 + y / 1000)
    ∷ ((48 + y / 100 % 10)
        ∷ ((48 + y / 10 % 10)
            ∷ ((48 + y % 10)
                ∷ (b'-'
                    ∷ ((48 + m / 10)
                        ∷ ((48 + m % 10) ∷ (b'-' ∷ ((48 + d / 10) ∷ ((48 + d % 10) ∷ [])))))))))

abbrev pub written_time : ℕ → ℕ → Text
written_time h m = (48 + h / 10) ∷ ((48 + h % 10) ∷ (b':' ∷ ((48 + m / 10) ∷ ((48 + m % 10) ∷ []))))

-- The lengths of the months from January on.
abbrev pub days_of_month : Bool → ℕ → ℕ
days_of_month leap m =
    get_or
      (0
        ∷ (31
            ∷ ((if leap then 29 else 28)
                ∷ (31 ∷ (30 ∷ (31 ∷ (30 ∷ (31 ∷ (31 ∷ (30 ∷ (31 ∷ (30 ∷ (31 ∷ [])))))))))))))
      m 0

abbrev pub is_leap_year : ℕ → Bool
is_leap_year y = if y % 400 == 0 then true else if y % 100 == 0 then false else y % 4 == 0

digit_is_digit : (n : ℕ) → n < 10 → is_digit (48 + n) ≡ true
unfolding is_digit
digit_is_digit n h = ground arith

atoi-two : (n : ℕ) → n < 100 → atoi (two n) ≡ pos n
unfolding atoi
atoi-two n h =
    let a = digit_is_digit (n / 10) (omega arith) in
    let b = digit_is_digit (n % 10) (omega arith) in
    let some_two : some_digits (two n) ≡ true =
      unfold some_digits in unfold all_digits in rw (a, b) refl in
    let value : digits_value 0 (two n) ≡ n = unfold digits_value in rw (a, b) (omega arith) in
    ap wrap32 (atol-some_digits (two n) some_two (omega (arith, value)) ∙ ap pos value)
    ∙ wrap32_id (pos n) (omega arith)

abbrev four : ℕ → Text
four y = (48 + y / 1000) ∷ ((48 + y / 100 % 10) ∷ ((48 + y / 10 % 10) ∷ ((48 + y % 10) ∷ [])))

atoi-four : (y : ℕ) → y < 10000 → atoi (four y) ≡ pos y
unfolding atoi
atoi-four y h =
    let a = digit_is_digit (y / 1000) (omega arith) in
    let b = digit_is_digit (y / 100 % 10) (omega arith) in
    let c = digit_is_digit (y / 10 % 10) (omega arith) in
    let d = digit_is_digit (y % 10) (omega arith) in
    let some_four : some_digits (four y) ≡ true =
      unfold some_digits in unfold all_digits in rw (a, b, c, d) refl in
    let value : digits_value 0 (four y) ≡ y =
      unfold digits_value in rw (a, b, c, d) (omega arith) in
    ap wrap32 (atol-some_digits (four y) some_four (omega (arith, value)) ∙ ap pos value)
    ∙ wrap32_id (pos y) (omega arith)

leap_years : (y : ℕ) → is_leap (pos y) ≡ is_leap_year y
leap_years y = ground arith

-- Whether the code lets no day of that number pass in the month.
abbrev refused_day : ℤ → ℤ → ℤ → Bool
refused_day year month day =
    (ltb_ℤ (pos 31) day || ltb_ℤ day (pos 1)) || not (passes_switch year month day)

month_lengths :
    (y m d : ℕ)
    → 0 < m
    → m < 13
    → refused_day (pos y) (pos m) (pos d) ≡ (d == 0 || ltb (days_of_month (is_leap_year y) m) d)
unfolding passes_switch
month_lengths y zero d p q = elim p [ ]
month_lengths y (suc zero) d p q = ground arith
month_lengths y (suc (suc zero)) d p q =
    rw (leap_years y, passes_switch)
      (elim (Bool-cases (is_leap_year y)) [
        | inl e ↦ rw e (ground arith)
        | inr e ↦ rw e (ground arith)
      ])
month_lengths y (suc (suc (suc zero))) d p q = ground arith
month_lengths y (suc (suc (suc (suc zero)))) d p q = ground arith
month_lengths y (suc (suc (suc (suc (suc zero))))) d p q = ground arith
month_lengths y (suc (suc (suc (suc (suc (suc zero)))))) d p q = ground arith
month_lengths y (suc (suc (suc (suc (suc (suc (suc zero))))))) d p q = ground arith
month_lengths y (suc (suc (suc (suc (suc (suc (suc (suc zero)))))))) d p q = ground arith
month_lengths y (suc (suc (suc (suc (suc (suc (suc (suc (suc zero))))))))) d p q = ground arith
month_lengths y (suc (suc (suc (suc (suc (suc (suc (suc (suc (suc zero)))))))))) d p q =
    ground arith
month_lengths y (suc (suc (suc (suc (suc (suc (suc (suc (suc (suc (suc zero))))))))))) d p q =
    ground arith
month_lengths y (suc (suc (suc (suc (suc (suc (suc (suc (suc (suc (suc (suc zero)))))))))))) d p q =
    ground arith
month_lengths y (suc (suc (suc (suc (suc (suc (suc (suc (suc (suc (suc (suc (suc m))))))))))))) d p
      q =
    absurd (omega arith)

month_test : (m : ℕ) → (ltb_ℤ (pos 12) (pos m) || ltb_ℤ (pos m) (pos 1)) ≡ (m == 0 || ltb 12 m)
month_test m = ground arith

same_answer :
    (a b : Bool) (e r : ℤ) → (if a then e else if b then e else r) ≡ (if a || b then e else r)
same_answer true b e r = refl
same_answer false b e r = refl

day_test :
    (y m d : ℕ) (r : ℤ)
    → 0 < m
    → m < 13
    → (if ltb_ℤ (pos 31) (pos d) || ltb_ℤ (pos d) (pos 1)
        then am_day_range_err
        else if not (passes_switch (pos y) (pos m) (pos d))
        then am_day_range_err
        else r)
      ≡ (if d == 0 || ltb (days_of_month (is_leap_year y) m) d then am_day_range_err else r)
day_test y m d r p q =
    same_answer (ltb_ℤ (pos 31) (pos d) || ltb_ℤ (pos d) (pos 1))
      (not (passes_switch (pos y) (pos m) (pos d))) am_day_range_err r
    ∙ ap (λ (b : Bool). if b then am_day_range_err else r) (month_lengths y m d p q)

month_numbers : (m : ℕ) → (m == 0 || ltb 12 m) ≡ false → (0 < m) × (m < 13)
month_numbers m e = ground arith

-- What `checkDateTime` is for, over the numbers of the date and the time.
abbrev pub verdict : Calendar → Option ℤ → ℕ → ℕ → ℕ → ℕ → ℕ → ℤ
verdict cal now y m d h mi =
    if leb 2038 y
    then am_year_range_err
    else if m == 0 || ltb 12 m
    then am_month_range_err
    else if d == 0 || ltb (days_of_month (is_leap_year y) m) d
    then am_day_range_err
    else if ltb 23 h
    then am_hour_range_err
    else if ltb 59 mi
    then am_minute_range_err
    else check_start cal now (start_date_time (pos y) (pos m) (pos d) (pos h) (pos mi))

module _ (cal : Calendar) (now : Option ℤ) where
  time_of_day :
      (h mi : ℕ) (year month day : ℤ)
      → h < 100
      → mi < 100
      → check_time cal now year month day (written_time h mi) ≡ (
          if ltb 23 h
          then am_hour_range_err
          else if ltb 59 mi
          then am_minute_range_err
          else check_start cal now (start_date_time year month day (pos h) (pos mi)))
  unfolding check_time
  time_of_day h mi year month day ph pmi =
      rw
        (
          atoi-two h ph,
          atoi-two mi pmi,
          digit_is_digit (h / 10) (omega arith),
          digit_is_digit (h % 10) (omega arith),
          digit_is_digit (mi / 10) (omega arith),
          digit_is_digit (mi % 10) (omega arith),
        )
        (rw (add-zero h, add-zero mi) refl)

  -- A date and a time in the form that the user has to write, with a year of four digits and the
  -- other numbers of two: `checkDateTime` refuses the years from 2038 on, a month that is none, a
  -- day that the month does not have in that year, an hour above 23 and a minute above 59, in this
  -- order and with the code of each; and it answers for the rest what the calendar makes of it, or
  -- that it is past.
  pub check_date_time-written_date :
      (y m d h mi : ℕ)
      → y < 10000
      → m < 100
      → d < 100
      → h < 100
      → mi < 100
      → check_date_time cal now (written_date y m d) (written_time h mi)
        ≡ verdict cal now y m d h mi
  unfolding check_date_time
  check_date_time-written_date y m d h mi py pm pd ph pmi =
      rw
        (
          digit_is_digit (y / 1000) (omega arith),
          digit_is_digit (y / 100 % 10) (omega arith),
          digit_is_digit (y / 10 % 10) (omega arith),
          digit_is_digit (y % 10) (omega arith),
          digit_is_digit (m / 10) (omega arith),
          digit_is_digit (m % 10) (omega arith),
          digit_is_digit (d / 10) (omega arith),
          digit_is_digit (d % 10) (omega arith),
          atoi-four y py,
          atoi-two m pm,
          atoi-two d pd,
          time_of_day h mi (pos y) (pos m) (pos d) ph pmi,
        )
        (elim (Bool-cases (leb 2038 y)) [
          | inl late ↦ rw (add-zero y, late) refl
          | inr early ↦
              rw (add-zero y, early)
                (elim (Bool-cases (m == 0 || ltb 12 m)) [
                  | inl no_month ↦ rw (month_test m, no_month) refl
                  | inr a_month ↦
                      rw (month_test m, a_month)
                        (let (p, q) = month_numbers m a_month in day_test y m d _ p q)
                ])
        ])
