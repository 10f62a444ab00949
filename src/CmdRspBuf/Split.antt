-- ===== src/CmdRspBuf/Split.antt =====
-- The loop of `OZT_CmdRspBuf::append` that cuts a text into lines. A line holds the byte that ends
-- it: a newline, a vertical tab or a form feed.
pub mod Laws
use operations_procedure_sup.Common.{
  ℕ, zero, suc, Bool, ◌||◌, List, [], ◌∷◌, ◌++◌, Text, ◌==◌, if◌then◌else◌, length,
}

-- `"\n\v\f"`
unfoldable pub ends_line : ℕ → Bool
ends_line c = c == 10 || (c == 11 || c == 12)

-- `find_first_of(newLine, start)` and the two `substr`: the line in front, and the text behind it.
unfoldable pub cut_line : Text → Text × Text
unfolding ends_line
cut_line [] = ([], [])
cut_line (c ∷ cs) =
    let (line, rest) = cut_line cs in if ends_line c then (c ∷ [], cs) else (c ∷ line, rest)

-- The `while` loop, on fuel: each round takes a byte at least.
unfoldable pub push_lines : ℕ → Text → List Text
unfolding cut_line
push_lines zero text = []
push_lines (suc f) [] = []
push_lines (suc f) (c ∷ cs) = (cut_line (c ∷ cs)).0 ∷ push_lines f (cut_line (c ∷ cs)).1

-- The lines of a chunk.
unfoldable pub lines_of : Text → List Text
unfolding push_lines
lines_of text = push_lines (length text) text

-- `store.back() + chunk` with `store.pop_back()`, and then the loop. The vector is in order here.
unfoldable pub append_lines : List Text → Text → List Text
unfolding lines_of
append_lines [] chunk = lines_of chunk
append_lines (l ∷ []) chunk = lines_of (l ++ chunk)
append_lines (l ∷ (m ∷ ls)) chunk = l ∷ append_lines (m ∷ ls) chunk
