-- ===== src/SourceInfo/Branches/Laws.antt =====
-- @IF on a body whose blocks are closed: the branch taken, and the frame pushed.
use operations_procedure_sup.Common.{
  ℕ, suc, ◌+◌, ◌-◌, ◌<◌, ◌-ℤ◌, Bool, true, false, if◌then◌else◌, ◌≡◌, refl, ◌∙◌, ap, arith, Option,
  some, none, ℤ, List, ◌∷◌, ◌++◌, Text, length, drop, pos,
}
use operations_procedure_sup.Tools.{Tools}
use operations_procedure_sup.ErrHandling.{OztResult, fresh, of_code, no_problem, is_ok}
use operations_procedure_sup.Value.Convert.{Value, to_boolean}
use operations_procedure_sup.SourceInfo.{SourceInfo, if_frame, at}
use operations_procedure_sup.SourceInfo.Lines.{advance}
use operations_procedure_sup.SourceInfo.Blocks.{find_else_statement}
use operations_procedure_sup.SourceInfo.Blocks.Laws.{Body, Closes, find_endif_statement-Body}
use operations_procedure_sup.SourceInfo.Branches.{
  line_number, branch_line, if_else_setup, push_frame,
}

-- The line behind which execution goes on: that of @IF if the condition is true, else that of @ELSE,
-- or the line above @ENDIF if there is no @ELSE.
abbrev pub starts_behind : Bool → ℕ → Option ℕ → ℕ → ℤ
starts_behind holds n els end = pos (if holds then n else elim els [ some k ↦ k | none ↦ end - 1 ])

-ℤ_pred : (n : ℕ) → 0 < n → pos n -ℤ pos 1 ≡ pos (n - 1)
unfolding ◌-ℤ◌
-ℤ_pred n h = ground arith

module _ (t : Tools) where
  branch_line-starts_behind :
      (c : Bool) (n end : ℕ) (els : Option ℕ)
      → 0 < end
      → branch_line t c (pos n) els end ≡ starts_behind c n els end
  unfolding branch_line
  branch_line-starts_behind true n end els h = refl
  branch_line-starts_behind false n end (some k) h = refl
  branch_line-starts_behind false n end none h = -ℤ_pred end h

  -- @IF with a condition that is a truth value, on a line whose body has its blocks closed and is
  -- followed by an @ENDIF: the frame holds the line of that @ENDIF, and execution goes on with the
  -- first command behind @IF if the condition is true, else behind the line that the search for
  -- @ELSE answers, or behind the line above @ENDIF if it answers none.
  pub if_else_setup-Body :
      (s : SourceInfo) (n : ℕ) (v : Value) (b : Bool) (body after : List Text) (e : Text)
      → to_boolean t v fresh ≡ (b, of_code no_problem)
      → drop (suc n) s.text ≡ body ++ (e ∷ after)
      → Body t body
      → Closes t e
      → let els = (find_else_statement t s.text (suc n)).0 in
        let end = suc n + length body in
        if_else_setup t v (at s (pos n)) ≡ (
          push_frame
              (if_frame (pos n) (line_number els) (pos end))
              (advance t (at s (starts_behind b n els end))).0,
          of_code no_problem,
        )
  unfolding if_else_setup is_ok
  if_else_setup-Body s n v b body after e cond lines closed closes =
      let els = (find_else_statement t s.text (suc n)).0 in
      let end = suc n + length body in
      rw
        (
          cond,
          find_endif_statement-Body t s.text body after e (suc n) lines closed closes,
          if_else_setup,
        )
        (ap
            (λ c. (
              push_frame (if_frame (pos n) (line_number els) (pos end))
                  (advance t (at s (branch_line t c (pos n) els end))).0,
              of_code no_problem,
            ))
            (ap (λ (p : Bool × OztResult). p.0) cond)
          ∙ ap
              (λ z. (
                push_frame (if_frame (pos n) (line_number els) (pos end)) (advance t (at s z)).0,
                of_code no_problem,
              ))
              (branch_line-starts_behind b n end els (omega arith)))
