-- ===== src/SourceInfo/Lines.antt =====
-- Moving over the commands of a file: `skipCommentryLines`, `getCurrCmdText`, `currCmdLength`,
-- `composeScriptCmd`, `composeHostCmd`, `advance`, `setLine`, `skipElse` and `adjustCurrLine`.
pub mod Position
pub mod Laws
use operations_procedure_sup.Common.{
  ℕ, zero, suc, ◌+◌, ◌-◌, Bool, true, false, not, ◌&&◌, ◌||◌, List, [], ◌∷◌, ◌++◌, Option, none,
  some, Text, ltb, leb, ◌==◌, if◌then◌else◌, length, drop, ℤ, pos, negsuc, minus_one, ◌+ℤ◌,
  pos_part,
}
use operations_procedure_sup.Tools.{Tools, found}
use operations_procedure_sup.ErrHandling.{OztResult, of_code, no_problem, hit_eof, is_ok}
use operations_procedure_sup.Misc.{is_empty_line, trim}
use operations_procedure_sup.SourceInfo.{SourceInfo, line_at, below_entries}
use operations_procedure_sup.SourceInfo.Patterns.{
  else_scanner, script_cmd_checker, host_continue_checker,
}
use operations_procedure_sup.SourceInfo.Comments.{
  strip_all_comment, strip_comment_on_mml, to_continue,
}

-- A line of comments and white space only.
unfoldable pub is_commentary : Text → Bool
unfolding is_empty_line strip_all_comment
is_commentary line = is_empty_line (strip_all_comment line)

-- The first line that is no commentary, counted on from `n`.
unfoldable pub skip_from : ℕ → List Text → ℕ
skip_from n [] = n
skip_from n (l ∷ ls) = let rest = skip_from (suc n) ls in if is_commentary l then rest else n

-- The line reached from a position; a negative one is not below the number of lines.
unfoldable pub skipped : ℤ → List Text → ℤ
unfolding skip_from
skipped (pos n) lines = pos (skip_from n (drop n lines))
skipped (negsuc n) lines = negsuc n

-- `skipCommentryLines`
unfoldable pub skip_commentry_lines : SourceInfo → SourceInfo
unfolding skipped
skip_commentry_lines s = record s { curr_line = skipped s.curr_line s.text }

-- The loop that `composeScriptCmd` and `composeHostCmd` share, over the lines behind the first one:
-- a command goes on behind a line for which `more` holds, and lines that strip to nothing are
-- passed over. The flag says that the next line is still being looked for; `n` counts the lines
-- passed. The result is the text and the number of lines.
unfoldable pub join : (Text → Text) → (Text → Bool) → Bool → Text → Text → ℕ → List Text → Text × ℕ
join strip more looking temp blk n [] = (blk, suc n)
join strip more looking temp blk n (l ∷ ls) =
    let temp' = strip l in
    let empty = is_empty_line temp' in
    let rest = join strip more empty temp' (if empty then blk else blk ++ temp') (suc n) ls in
    if looking || more temp then rest else (blk, suc n)

-- A command that starts at line `n`.
unfoldable pub compose : (Text → Text) → (Text → Bool) → List Text → ℕ → Text × ℕ
unfolding join
compose strip more lines n =
    let first = strip (line_at lines n) in join strip more false first first 0 (drop (suc n) lines)

-- `tempText[tempText.length()-1] != '*'`
unfoldable pub last_is_star : Text → Bool
last_is_star [] = false
last_is_star (c ∷ []) = c == b'*'
last_is_star (c ∷ (d ∷ ds)) = last_is_star (d ∷ ds)

-- Behind a skip: the end of the file is "no line".
unfoldable pub settle : SourceInfo → SourceInfo × OztResult
settle s =
    if below_entries s.curr_line s.text
    then (s, of_code no_problem)
    else (record s { curr_line = minus_one }, of_code hit_eof)

module _ (t : Tools) where
  -- `composeScriptCmd`
  unfoldable pub compose_script_cmd : List Text → ℕ → Text × ℕ
  unfolding compose
  compose_script_cmd = compose strip_all_comment (to_continue t)

  unfoldable pub host_line : Text → Text
  host_line l = trim (strip_comment_on_mml t l)

  unfoldable pub host_continues : Text → Bool
  unfolding last_is_star
  host_continues s = found (t.index host_continue_checker s 0) && not (last_is_star s)

  -- `composeHostCmd`
  unfoldable pub compose_host_cmd : List Text → ℕ → Text × ℕ
  unfolding compose
  compose_host_cmd = compose host_line host_continues

  -- `getCurrCmdText(textBlk, cmdLength)` at a position.
  unfoldable pub curr_cmd_at : List Text → ℤ → Text × ℕ
  unfolding compose_script_cmd compose_host_cmd
  curr_cmd_at lines (negsuc _) = ([], 0)
  curr_cmd_at lines (pos n) =
      if found (t.index script_cmd_checker (strip_all_comment (line_at lines n)) 0)
      then compose_script_cmd lines n
      else compose_host_cmd lines n

  unfoldable pub curr_cmd : SourceInfo → Text × ℕ
  unfolding curr_cmd_at
  curr_cmd s = curr_cmd_at s.text s.curr_line

  -- `currCmdLength`
  unfoldable pub curr_cmd_length : SourceInfo → ℕ
  unfolding curr_cmd
  curr_cmd_length s = (curr_cmd s).1

  -- `advance`
  unfoldable pub advance : SourceInfo → SourceInfo × OztResult
  unfolding settle skip_commentry_lines
  advance s =
      settle
        (skip_commentry_lines (record s { curr_line = s.curr_line +ℤ pos (curr_cmd_length s) }))

  -- `getCurrCmdText(textBlk, skip_comments)`
  unfoldable pub get_curr_cmd_text : Bool → SourceInfo → Text × SourceInfo × OztResult
  unfolding skip_commentry_lines curr_cmd
  get_curr_cmd_text skip_comments s =
      let s' = if skip_comments then skip_commentry_lines s else s in
      if below_entries s'.curr_line s'.text
      then ((curr_cmd s').0, s', of_code no_problem)
      else ([], record s' { curr_line = minus_one }, of_code hit_eof)
