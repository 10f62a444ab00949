-- ===== src/SourceInfo/Loops/Laws.antt =====
-- One round of @NEXT.
use operations_procedure_sup.Common.{
  ℕ, ◌<◌, false, ◌≡◌, ◌∙◌, arith, some, List, ◌∷◌, Text, text_eq_refl, if◌then◌else◌, length, ℤ,
  pos, negsuc, ltb_ℤ, ◌+ℤ◌,
}
use operations_procedure_sup.Tools.{Tools}
use operations_procedure_sup.ErrHandling.{fresh, of_code, no_problem, is_ok}
use operations_procedure_sup.Value.Words.{IsInt, IsLong, wrap32, wrap32-IsInt}
use operations_procedure_sup.Value.Convert.{of_long}
use operations_procedure_sup.Value.Convert.Laws.{ReadsNumerals}
use operations_procedure_sup.Value.Arith.Laws.{add-of_long}
use operations_procedure_sup.Value.Compare.Laws.{gt_value-of_long}
use operations_procedure_sup.VarStore
use operations_procedure_sup.VarStore.{VarStore}
use operations_procedure_sup.SourceInfo.{SourceInfo, at, line_at, Frame, for_loop_frame}
use operations_procedure_sup.SourceInfo.Lines.{is_commentary, advance}
use operations_procedure_sup.SourceInfo.Lines.Position.Laws.{set_line_here}
use operations_procedure_sup.SourceInfo.Loops.{for_loop_next, loop_or_leave, top_for}

pub int-IsLong : (v : ℤ) → IsInt v → IsLong v
int-IsLong (pos n) h = omega arith
int-IsLong (negsuc n) h = omega arith

-- The stack of a source in the body of a loop.
abbrev pub in_loop : Text → ℤ → ℤ → ℤ → List Frame → SourceInfo → SourceInfo
in_loop x start next last fs s = record s {
  flow_stack = for_loop_frame x start next (of_long last) ∷ fs;
}

module _ (t : Tools) (reads : ReadsNumerals t) where
  next-loop_or_leave :
      (v : Text) (start next last : ℤ) (fs : List Frame) (s : SourceInfo) (vs : VarStore) (k : ℤ)
      → VarStore.get t (t.to_upper v) vs ≡ some (of_long k)
      → IsInt k
      → for_loop_next t v (in_loop (t.to_upper v) start next last fs s) vs
        ≡ loop_or_leave t
            (of_long (wrap32 (k +ℤ pos 1)))
            start
            (of_long last)
            (in_loop (t.to_upper v) start next last fs s)
            (VarStore.put t (t.to_upper v) (of_long (wrap32 (k +ℤ pos 1))) vs)
  unfolding for_loop_next top_for is_ok
  next-loop_or_leave v start next last fs s vs k g h =
      rw (text_eq_refl (t.to_upper v))
        (rw g (rw (add-of_long t reads k (pos 1) fresh h (omega arith))))

  -- @NEXT in a loop whose variable holds the `int` k: the variable is set to k + 1, wrapped around
  -- at 32 bits. If that is above the last value, the loop's frame is removed and execution
  -- advances; if not, it goes on at the first line of the body.
  pub next_round :
      (v : Text) (n : ℕ) (next last : ℤ) (fs : List Frame) (s : SourceInfo) (vs : VarStore) (k : ℤ)
      → VarStore.get t (t.to_upper v) vs ≡ some (of_long k)
      → IsInt k
      → IsLong last
      → n < length s.text
      → is_commentary (line_at s.text n) ≡ false
      → for_loop_next t v (in_loop (t.to_upper v) (pos n) next last fs s) vs ≡ (
          let vs1 = VarStore.put t (t.to_upper v) (of_long (wrap32 (k +ℤ pos 1))) vs in
          let left = advance t (record s { flow_stack = fs }) in
          if ltb_ℤ last (wrap32 (k +ℤ pos 1)) then (left.0, vs1, left.1) else (
            at (in_loop (t.to_upper v) (pos n) next last fs s) (pos n),
            vs1,
            of_code no_problem,
          ))
  unfolding loop_or_leave
  next_round v n next last fs s vs k g hk hl hn c =
      let k1 = wrap32 (k +ℤ pos 1) in
      next-loop_or_leave v (pos n) next last fs s vs k g hk
      ∙ rw (gt_value-of_long t reads k1 last (int-IsLong k1 (wrap32-IsInt (k +ℤ pos 1))) hl)
          (rw (set_line_here (in_loop (t.to_upper v) (pos n) next last fs s) n hn c))
