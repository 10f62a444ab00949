-- ===== src/SourceInfo/Comments.antt =====
-- Comments: `stripAllComment`, `stripCommentOnMML`, `isCommentryLine` and `toContinue`. Each walks
-- over the bytes of one line in a mode; the index loops of the source are these modes.
use operations_procedure_sup.Common.{
  ℕ, zero, suc, Bool, true, false, not, ◌&&◌, ◌||◌, [], ◌∷◌, Option, none, some, Text, codes,
  starts_with, ◌==◌, if◌then◌else◌,
}
use operations_procedure_sup.Tools.{Tools, found}
use operations_procedure_sup.Misc.{trim}
use operations_procedure_sup.SourceInfo.Patterns.{continue_checker, mml_checker, mml_checker2}

-- Where a scan over a line stands.
pub data Scan : Type 0 where
  plain : Scan
  -- Behind an opening quote, which is the byte given.
  quoted : ℕ → Scan
  -- Behind `/*`.
  comment : Scan
  -- That many more bytes are copied, and one, before the scan goes on in the mode given.
  copying : ℕ → Scan → Scan

abbrev is_quote : ℕ → Bool
is_quote c = c == b'"' || c == b'\''

abbrev pub halt_marker : Text
halt_marker = codes "!$$$$!"

-- The mode after the byte `c` with `cs` behind it; `none` ends the line before `c`.
unfoldable pub scan_step : Scan → ℕ → Text → Option Scan
scan_step plain c cs =
    if is_quote c
    then some (quoted c)
    else if c == b'/'
    then some (if starts_with (b'*' ∷ []) cs then copying 0 comment else plain)
    else if c == b'!'
    then (if starts_with halt_marker (c ∷ cs) then some (copying 4 plain) else none)
    else if c == b'@'
    then (if starts_with (b'@' ∷ []) cs then none else some plain)
    else some plain
scan_step (quoted d) c cs = some (if c == d then plain else quoted d)
scan_step comment c cs =
    some (if c == b'*' && starts_with (b'/' ∷ []) cs then copying 0 plain else comment)
scan_step (copying zero m) c cs = some m
scan_step (copying (suc n) m) c cs = some (copying n m)

unfoldable pub strip_from : Scan → Text → Text
unfolding scan_step
strip_from m [] = []
strip_from m (c ∷ cs) = elim (scan_step m c cs) [ none ↦ [] | some m' ↦ c ∷ strip_from m' cs ]

-- `stripAllComment`
unfoldable pub strip_all_comment : Text → Text
unfolding strip_from
strip_all_comment source_line = strip_from plain source_line

-- The loop of `stripCommentOnMML`: only `@@` outside quotes ends the line.
unfoldable pub mml_step : Scan → ℕ → Text → Option Scan
mml_step (quoted d) c cs = some (if c == d then plain else quoted d)
mml_step m c cs =
    if is_quote c
    then some (quoted c)
    else if c == b'@' && starts_with (b'@' ∷ []) cs
    then none
    else some plain

unfoldable pub strip_mml_from : Scan → Text → Text
unfolding mml_step
strip_mml_from m [] = []
strip_mml_from m (c ∷ cs) = elim (mml_step m c cs) [
  | none ↦ []
  | some m' ↦ c ∷ strip_mml_from m' cs
]

-- `isCommentryLine`
unfoldable pub is_commentry_line : Text → Bool
unfolding trim
is_commentry_line line =
    let l = trim line in
    elim l [
      | [] ↦ true
      | c ∷ cs ↦
          if starts_with (codes "@@") (c ∷ cs)
          then true
          else if c == b'!'
          then not (starts_with halt_marker (c ∷ cs))
          else false
    ]

-- The quotes and comments that `toContinue` walks over: whether none is left open. A comment that
-- opens at the very end of the line counts as closed.
unfoldable pub all_closed : Scan → Text → Bool
all_closed plain [] = true
all_closed (quoted d) [] = false
all_closed comment [] = true
all_closed (copying n m) [] = true
all_closed plain (c ∷ cs) =
    all_closed
      (if is_quote c
        then quoted c
        else if c == b'/' && starts_with (b'*' ∷ []) cs
        then copying 0 comment
        else plain)
      cs
all_closed (quoted d) (c ∷ cs) = all_closed (if c == d then plain else quoted d) cs
all_closed comment (c ∷ []) = false
all_closed comment (c ∷ (d ∷ cs)) =
    all_closed (if c == b'*' && d == b'/' then copying 0 plain else comment) (d ∷ cs)
all_closed (copying zero m) (c ∷ cs) = all_closed m cs
all_closed (copying (suc n) m) (c ∷ cs) = all_closed (copying n m) cs

module _ (t : Tools) where
  -- `stripCommentOnMML`
  unfoldable pub strip_comment_on_mml : Text → Text
  unfolding strip_mml_from
  strip_comment_on_mml line =
      if found (t.index mml_checker line 0) && not (found (t.index mml_checker2 line 0))
      then []
      else strip_mml_from plain line

  -- `toContinue`
  unfoldable pub to_continue : Text → Bool
  unfolding all_closed
  to_continue text_blk = found (t.index continue_checker text_blk 0) && all_closed plain text_blk
