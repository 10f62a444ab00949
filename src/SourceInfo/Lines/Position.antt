-- ===== src/SourceInfo/Lines/Position.antt =====
-- Setting the position: `setLine`, `skipElse`, `adjustCurrLine` and `update`'s use of it.
pub mod Laws
use operations_procedure_sup.Common.{
  ℕ, zero, suc, ◌-◌, Bool, true, false, not, List, Option, none, some, Text, ltb, leb,
  if◌then◌else◌, length, ℤ, pos, negsuc, minus_one, ltb_ℤ,
}
use operations_procedure_sup.Tools.{Tools, found}
use operations_procedure_sup.ErrHandling.{OztResult, fresh, of_code, no_problem, is_ok}
use operations_procedure_sup.SourceInfo.{SourceInfo, line_at, below_entries}
use operations_procedure_sup.SourceInfo.Patterns.{else_scanner}
use operations_procedure_sup.SourceInfo.Lines.{
  is_commentary, skip_commentry_lines, advance, get_curr_cmd_text,
}

-- `setLine`
unfoldable pub set_line : ℤ → Bool → SourceInfo → SourceInfo × Bool
set_line lineno skip_comments s =
    if not (below_entries lineno s.text)
    then (s, false)
    else let s1 = record s { curr_line = lineno } in
      let s2 = if skip_comments then skip_commentry_lines s1 else s1 in
      if below_entries s2.curr_line s2.text
      then (s2, true)
      else (record s2 { curr_line = minus_one }, false)

-- The loop of `adjustCurrLine`: the last line at or above `n` that is no commentary.
unfoldable pub last_command_line : List Text → ℕ → Option ℕ
last_command_line lines zero = if not (is_commentary (line_at lines zero)) then some zero else none
last_command_line lines (suc n) =
    let above = last_command_line lines n in
    if not (is_commentary (line_at lines (suc n))) then some (suc n) else above

-- The position from which `adjustCurrLine` looks upwards: the last line if the skip went past it.
unfoldable pub within_text : ℤ → List Text → ℕ
within_text (pos n) lines = if ltb n (length lines) then n else length lines - 1
within_text (negsuc _) lines = length lines - 1

-- `adjustCurrLine`
unfoldable pub adjust_curr_line : SourceInfo → SourceInfo × Bool
unfolding last_command_line within_text
adjust_curr_line s =
    if not (ltb 0 (length s.text))
    then (s, false)
    else elim (last_command_line s.text (within_text (skip_commentry_lines s).curr_line s.text)) [
      | none ↦ (s, false)
      | some n ↦ (record s { curr_line = pos n }, true)
    ]

module _ (t : Tools) where
  -- The loop of `skipElse`. It ends by its own test within as many rounds as there are lines.
  unfoldable pub skip_else_loop : ℕ → ℤ → SourceInfo → SourceInfo × OztResult
  unfolding is_ok
  skip_else_loop zero start s = (s, fresh)
  skip_else_loop (suc f) start s =
      let (s1, result) = advance t s in
      if is_ok result.code
      then (let (text_blk, s2, _) = get_curr_cmd_text t true s1 in
          let rest = skip_else_loop f start s2 in
          if not (found (t.index else_scanner text_blk 0)) then (s2, of_code no_problem) else rest)
      else (record s1 { curr_line = start }, result)

  -- `skipElse`
  unfoldable pub skip_else : SourceInfo → SourceInfo × OztResult
  unfolding skip_else_loop
  skip_else s = skip_else_loop (suc (length s.text)) s.curr_line s
