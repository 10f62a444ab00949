-- ===== src/Value/Justify/Laws.antt =====
-- The lengths of the justified texts, and the part that `copy` takes.
use operations_procedure_sup.Common.{
  ℕ, suc, ◌+◌, ◌-◌, ◌/◌, ◌<◌, false, ◌≡◌, inl, inr, arith, ◌++◌, leb, ltb, length, take, drop,
  replicate, length-append, length-take, length-replicate, pos, Bool-cases, if◌then◌else◌,
}
use operations_procedure_sup.Tools.{Tools}
use operations_procedure_sup.ErrHandling.{OztResult, of_code, no_problem, is_ok}
use operations_procedure_sup.Value.Convert.{Value, of_text, of_long}
use operations_procedure_sup.Value.Convert.Laws.{ReadsNumerals, to_long-of_long}
use operations_procedure_sup.Value.Justify.{
  left_justify, right_justify, center, long_enough, missing, copy, copy_part,
}

module _ (t : Tools) (reads : ReadsNumerals t) where
  -- Each of the three justifications to a length that is a `long` gives a text of that length.
  pub length-justify :
      (text : Value) (l : ℕ) (res : OztResult)
      → l < 9223372036854775808
      → (length (left_justify t text (of_long (pos l)) res).0.chars ≡ l)
        × (length (right_justify t text (of_long (pos l)) res).0.chars ≡ l)
        × (length (center t text (of_long (pos l)) res).0.chars ≡ l)
  unfolding left_justify right_justify center is_ok long_enough missing
  length-justify text l res h = elim (Bool-cases (leb l (length text.chars))) [
    | inl enough ↦
        rw (to_long-of_long t reads (pos l) (of_code no_problem) h)
          (rw enough (let cut = length-take l text.chars (ground arith) in (cut, cut, cut)))
    | inr short ↦
        rw (to_long-of_long t reads (pos l) (of_code no_problem) h)
          (rw short (left short, right short, middle short))
  ]
    where
      n : ℕ
      n = length text.chars

      above : leb l n ≡ false → n < l
      above h = ground arith

      left : leb l n ≡ false → length (text.chars ++ replicate (l - n) b' ') ≡ l
      left short = omega (
        arith,
        length-append text.chars (replicate (l - n) b' '),
        length-replicate {A = ℕ} (l - n) b' ',
        above short,
      )

      right : leb l n ≡ false → length (replicate (l - n) b' ' ++ text.chars) ≡ l
      right short = omega (
        arith,
        length-append (replicate (l - n) b' ') text.chars,
        length-replicate {A = ℕ} (l - n) b' ',
        above short,
      )

      middle :
          leb l n ≡ false
          → length
              (replicate ((l - n) / 2) b' ' ++ text.chars ++ replicate (l - n - (l - n) / 2) b' ')
            ≡ l
      middle short = omega (
        arith,
        length-append (replicate ((l - n) / 2) b' ' ++ text.chars)
            (replicate (l - n - (l - n) / 2) b' '),
        length-append (replicate ((l - n) / 2) b' ') text.chars,
        length-replicate {A = ℕ} ((l - n) / 2) b' ',
        length-replicate {A = ℕ} (l - n - (l - n) / 2) b' ',
        above short,
      )

  -- `copy` from position x + 1 of a text that reaches beyond x: the y bytes from there, or those
  -- that are left.
  pub copy-of_long :
      (v : Value) (x y : ℕ) (res : OztResult)
      → suc x < 9223372036854775808
      → y < 9223372036854775808
      → x < length v.chars
      → copy t v (of_long (pos (suc x))) (of_long (pos y)) res ≡ (
        of_text (
            take (if ltb (length v.chars) (x + y) then length v.chars - x else y) (drop x v.chars)),
        of_code no_problem,
      )
  unfolding copy copy_part is_ok
  copy-of_long v x y res hx hy h =
      rw (to_long-of_long t reads (pos (suc x)) res hx, to_long-of_long t reads (pos y) _ hy)
        (ground arith)
