-- ===== src/OzTime/Laws.antt =====
-- The loop of `advance` ends, at a time that the clock has not passed.
use operations_procedure_sup.Common.{
  ℕ, ◌+◌, ◌*◌, ◌<◌, ◌≤◌, ◌≡◌, ◌⊎◌, some, ℤ, pos, minus_one, ◌+ℤ◌, pos_part, neg_part, ◌≤ℤ◌, ◌<ℤ◌,
}
use operations_procedure_sup.Tools.{Tools}
use operations_procedure_sup.OzTime.{Tm, Calendar, step_forward, advance_loop}

-- The limit is less than f seconds behind s.
abbrev pub Near : ℤ → ℤ → ℕ → Type 0
Near limit s f = pos_part limit + neg_part s < pos_part s + neg_part limit + f

-- `mktime` has brought the members into their ranges.
abbrev pub IsRanged : Tm → Type 0
IsRanged tm =
    (m h d : ℕ) × (tm.tm_min ≡ pos m)
    × (tm.tm_hour ≡ pos h)
    × (tm.tm_mday ≡ pos d)
    × (m < 60)
    × (h < 24)
    × (d ≤ 31)

-- What is documented of `mktime` for the times from `lo` on that it answers, and so of no failure,
-- which is -1: the members are in range, and stand for the same time. From a time before `limit`, k
-- more minutes or hours are a time as much later, and k more days, with the daylight saving left to
-- `mktime`, one that is later by k times 23 hours at least.
pub record IsCalendar (cal : Calendar) (lo : ℕ) (limit : ℤ) : Type 0 where
  pub members : (tm : Tm) → pos lo ≤ℤ (cal.mktime tm).1 → IsRanged (cal.mktime tm).0
  pub settled :
      (tm : Tm) → pos lo ≤ℤ (cal.mktime tm).1 → (cal.mktime (cal.mktime tm).0).1 ≡ (cal.mktime tm).1
  pub more_minutes :
      (tm : Tm) (k : ℕ)
      → pos lo ≤ℤ (cal.mktime tm).1
      → (cal.mktime tm).1 <ℤ limit
      → k < 1000
      → (let tm1 = (cal.mktime tm).0 in
          (cal.mktime (record tm1 { tm_min = tm1.tm_min +ℤ pos k })).1
          ≡ (cal.mktime tm).1 +ℤ pos (60 * k))
  pub more_hours :
      (tm : Tm) (k : ℕ)
      → pos lo ≤ℤ (cal.mktime tm).1
      → (cal.mktime tm).1 <ℤ limit
      → k < 1000
      → (let tm1 = (cal.mktime tm).0 in
          (cal.mktime (record tm1 { tm_hour = tm1.tm_hour +ℤ pos k })).1
          ≡ (cal.mktime tm).1 +ℤ pos (3600 * k))
  pub more_days :
      (tm : Tm) (k : ℕ)
      → pos lo ≤ℤ (cal.mktime tm).1
      → (cal.mktime tm).1 <ℤ limit
      → k < 1000
      → (let tm1 = (cal.mktime tm).0 in
          ((cal.mktime tm).1 +ℤ pos (82800 * k))
          ≤ℤ (cal.mktime (record tm1 { tm_mday = tm1.tm_mday +ℤ pos k; tm_isdst = minus_one })).1)

-- Minutes, hours, days or weeks.
abbrev pub IsIntervalType : ℕ → Type 0
IsIntervalType ty = (ty ≡ b'M') ⊎ ((ty ≡ b'H') ⊎ ((ty ≡ b'D') ⊎ (ty ≡ b'W')))

-- A step from a time between `lo` and `limit` leads to a later time.
abbrev Forward : Calendar → ℕ → ℤ → ℕ → ℤ → Type 0
Forward cal lo limit ty n =
    (tm : Tm)
    → pos lo ≤ℤ (cal.mktime tm).1
    → (cal.mktime tm).1 <ℤ limit
    → (cal.mktime tm).1 <ℤ (cal.mktime (step_forward ty n (cal.mktime tm).0)).1

abbrev Settled : Calendar → ℕ → Type 0
Settled cal lo =
    (tm : Tm) → pos lo ≤ℤ (cal.mktime tm).1 → (cal.mktime (cal.mktime tm).0).1 ≡ (cal.mktime tm).1

module _ (t : Tools) (cal : Calendar) where
  -- What the loop answers: a time that some reading of the clock has not passed, and that is not
  -- before the first step.
  abbrev Reached : (ℕ → ℤ) → ℕ → ℤ → ℕ → ℕ → Tm → Type 0
  Reached clock ty n f k tm =
      (secs : ℤ) × (j : ℕ) × (advance_loop t cal clock ty n f k tm ≡ some secs)
      × (clock j ≤ℤ secs)
      × ((cal.mktime (step_forward ty n tm)).1 ≤ℤ secs)
