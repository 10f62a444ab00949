-- ===== src/CmdSender/Attempts.antt =====
-- The attempts and the interval of `@FUNBUSY`.
use operations_procedure_sup.Common.{
  ◌≡◌, refl, Bool, false, not, ◌||◌, inl, inr, Bool-cases, if◌then◌else◌, ℤ, pos, negsuc, ◌≤ℤ◌,
  ltb_ℤ, eqb_ℤ, arith, ◌⊎◌,
}
use operations_procedure_sup.ErrHandling.{
  OztResult, of_code, is_ok, fresh, no_problem, invalid_value,
}
use operations_procedure_sup.Tools.{Tools}
use operations_procedure_sup.Value.Convert.{Value, to_long}
use operations_procedure_sup.CmdSender.{CmdSender, set_attempts, set_fun_busy_param}

-- There is an attempt to make, and a second to wait.
abbrev pub IsPatient : CmdSender → Type 0
IsPatient c =
    (pos 1 ≤ℤ c.fun_busy_attempts)
    × (pos 1 ≤ℤ c.fun_busy_interval)
    × (pos 1 ≤ℤ c.default_fb_attempts)

at_least_one :
    (z other : ℤ) → pos 0 ≤ℤ z → pos 1 ≤ℤ other → pos 1 ≤ℤ (if eqb_ℤ z (pos 0) then other else z)
at_least_one (pos n) other h h1 = ground arith
at_least_one (negsuc n) other h h1 = absurd (omega arith)

set_attempts-IsPatient :
    (retry interval : ℤ) (c : CmdSender)
    → pos 0 ≤ℤ retry
    → pos 0 ≤ℤ interval
    → IsPatient c
    → IsPatient (set_attempts retry interval c)
set_attempts-IsPatient retry interval c hr hi (a, i, d) = (
  at_least_one retry c.default_fb_attempts hr d,
  at_least_one interval (pos 1) hi (omega arith),
  d,
)

-- The numbers are refused, and nothing is changed, or they are taken.
abbrev pub IsTaken : OztResult × CmdSender → CmdSender → Type 0
IsTaken r c =
    ((r.0 ≡ of_code invalid_value) × (r.1 ≡ c))
    ⊎ ((r.0 ≡ of_code no_problem) × (r.1.fun_busy_counter ≡ r.1.fun_busy_attempts))

not_negative : (z : ℤ) (b : Bool) → (b || ltb_ℤ z (pos 0)) ≡ false → pos 0 ≤ℤ z
not_negative z b h = ground arith

-- Whatever values are given: if there was an attempt to make and a second to wait, there still is,
-- whether the values are refused, which changes nothing, or taken, when the counter starts at the
-- number of attempts.
pub set_fun_busy_param-IsPatient :
    (t : Tools) (retry interval : Value) (c : CmdSender)
    → IsPatient c
    → let r = set_fun_busy_param t retry interval c in IsPatient r.1 × IsTaken r c
unfolding set_fun_busy_param
set_fun_busy_param-IsPatient t retry interval c h =
    let (n, result) = to_long t retry fresh in
    let (m, result1) = to_long t interval result in
    elim (Bool-cases (not (is_ok result.code) || ltb_ℤ n (pos 0))) [
      | inl bad ↦ rw bad (h, inl (refl, refl))
      | inr good ↦ elim (Bool-cases (not (is_ok result1.code) || ltb_ℤ m (pos 0))) [
        | inl bad ↦ rw good (rw bad (h, inl (refl, refl)))
        | inr fine ↦
            let keeps =
              set_attempts-IsPatient n m c (not_negative n _ good) (not_negative m _ fine) h in
            rw good (rw fine (keeps, inr (refl, refl)))
      ]
    ]
