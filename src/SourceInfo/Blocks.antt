-- ===== src/SourceInfo/Blocks.antt =====
-- The searches for the other lines of a block: @ENDIF, @ELSE, @ENDSWITCH, @CASE and @NEXT. Each
-- runs over the lines from `n` on; `none` is the end of the file.
pub mod Laws
use operations_procedure_sup.Common.{
  ℕ, zero, suc, ◌+◌, ◌-◌, Bool, true, false, not, ◌&&◌, List, [], ◌∷◌, Option, none, some, Text,
  text_eq, ◌==◌, if◌then◌else◌, drop, get_elem?, length, ℤ, pos, negsuc,
}
use operations_procedure_sup.Tools.{Tools, found}
use operations_procedure_sup.ErrHandling.{Code, no_problem, hit_eof, no_matching_endif}
use operations_procedure_sup.Misc.{trim}
use operations_procedure_sup.Value.Convert.{Value}
use operations_procedure_sup.SourceInfo.Patterns.{
  then_scanner, endif_scanner, else_line_scanner, endswitch_scanner, case_scanner, default_scanner,
  next_scanner,
}
use operations_procedure_sup.SourceInfo.Comments.{strip_all_comment}

-- `currLine + 1`, where a search starts.
abbrev pub line_after : ℤ → ℕ
line_after (pos n) = suc n
line_after (negsuc _) = 0

-- The second token; an empty text if there is none.
unfoldable pub second_token : List Text → Text
second_token (a ∷ (b ∷ _)) = b
second_token _ = []

module _ (t : Tools) where
  abbrev pub ends_with_then : Text → Bool
  ends_with_then l = found (t.index then_scanner (strip_all_comment l) 0)

  abbrev pub is_endif : Text → Bool
  is_endif l = found (t.index endif_scanner (strip_all_comment l) 0)

  abbrev pub is_else_line : Text → Bool
  is_else_line l = found (t.index else_line_scanner (strip_all_comment l) 0)

  abbrev pub is_endswitch : Text → Bool
  is_endswitch l = found (t.index endswitch_scanner (strip_all_comment l) 0)

  abbrev pub is_case : Text → Bool
  is_case l = found (t.index case_scanner (strip_all_comment l) 0)

  abbrev pub is_default : Text → Bool
  is_default l = found (t.index default_scanner (strip_all_comment l) 0)

  -- `nrIf` behind a line.
  unfoldable pub count_then : Text → ℕ → ℕ
  count_then l nr_if = if ends_with_then l then suc nr_if else nr_if

  -- The loop of `findEndifStatement`.
  unfoldable pub find_endif_from : List Text → ℕ → ℕ → Option ℕ
  unfolding count_then
  find_endif_from [] n nr_if = none
  find_endif_from (l ∷ ls) n nr_if =
      let nr = count_then l nr_if in
      let rest = find_endif_from ls (suc n) (if is_endif l then nr - 1 else nr) in
      if is_endif l && nr == 1 then some n else rest

  -- `findEndifStatement`
  unfoldable pub find_endif_statement : List Text → ℕ → Option ℕ
  unfolding find_endif_from
  find_endif_statement lines start = find_endif_from (drop start lines) start 1

  -- The loop of `findElseStatement`: it goes on behind the @ENDIF of a nested block.
  unfoldable pub find_else_from : ℕ → List Text → ℕ → Option ℕ × Code
  unfolding find_endif_statement
  find_else_from zero lines n = (none, hit_eof)
  find_else_from (suc f) lines n = elim (get_elem? lines n) [
    | none ↦ (none, hit_eof)
    | some l ↦
        let next = find_else_from f lines (suc n) in
        if ends_with_then l
        then (elim (find_endif_statement lines (suc n)) [
          | none ↦ (none, no_matching_endif)
          | some e ↦ find_else_from f lines (suc e)
        ])
        else if is_else_line l
        then (some n, no_problem)
        else if is_endif l
        then (none, no_problem)
        else next
  ]

  -- `findElseStatement`; no line is read twice, so the rounds are fewer than the lines.
  unfoldable pub find_else_statement : List Text → ℕ → Option ℕ × Code
  unfolding find_else_from
  find_else_statement lines start = find_else_from (suc (length lines)) lines start

  -- The loop of `findEndswitchStatement`.
  unfoldable pub find_endswitch_from : List Text → ℕ → Option ℕ
  find_endswitch_from [] n = none
  find_endswitch_from (l ∷ ls) n =
      let rest = find_endswitch_from ls (suc n) in if is_endswitch l then some n else rest

  -- `findEndswitchStatement`
  unfoldable pub find_endswitch_statement : List Text → ℕ → Option ℕ
  unfolding find_endswitch_from
  find_endswitch_statement lines start = find_endswitch_from (drop start lines) start

  -- `caseValue == varValue`, on the second token of the line.
  unfoldable pub case_matches : Text → Value → Bool
  unfolding second_token text_eq
  case_matches l var_value = text_eq (second_token (t.tokens (strip_all_comment l))) var_value.chars

  -- Whether the search for the branch of a @SWITCH stops at a line.
  unfoldable pub takes_branch : Text → Value → Bool
  unfolding case_matches
  takes_branch l var_value = if is_case l then case_matches l var_value else is_default l

  -- The loop of `findMatchingCaseStatement`.
  unfoldable pub find_matching_case_from : List Text → ℕ → Value → Option ℕ
  unfolding takes_branch
  find_matching_case_from [] n var_value = none
  find_matching_case_from (l ∷ ls) n var_value =
      let rest = find_matching_case_from ls (suc n) var_value in
      if takes_branch l var_value then some n else rest

  -- `findMatchingCaseStatement`
  unfoldable pub find_matching_case_statement : List Text → ℕ → Value → Option ℕ
  unfolding find_matching_case_from
  find_matching_case_statement lines start var_value =
      find_matching_case_from (drop start lines) start var_value

  -- A line with @NEXT and this variable; the first place of the match is the start of the line.
  unfoldable pub is_next_of : Text → Text → Bool
  unfolding trim text_eq
  is_next_of var_name l =
      let temp_line = strip_all_comment l in
      elim (t.index next_scanner temp_line 0) [
        | none ↦ false
        | some (_, i) ↦ text_eq (t.to_upper (trim (drop i temp_line))) var_name
      ]

  -- The loop of `findEndOfForLoop`.
  unfoldable pub find_next_from : Text → List Text → ℕ → Option ℕ
  unfolding is_next_of
  find_next_from var_name [] n = none
  find_next_from var_name (l ∷ ls) n =
      let rest = find_next_from var_name ls (suc n) in
      if is_next_of var_name l then some n else rest

  -- `findEndOfForLoop`
  unfoldable pub find_end_of_for_loop : List Text → ℕ → Text → Option ℕ
  unfolding find_next_from
  find_end_of_for_loop lines start var_name =
      find_next_from (t.to_upper var_name) (drop start lines) start
