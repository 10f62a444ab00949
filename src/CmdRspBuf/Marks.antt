-- ===== src/CmdRspBuf/Marks.antt =====
-- How far the marks may lie beyond the store.
use operations_procedure_sup.Common.{
  ℕ, zero, suc, ap, ◌+◌, ◌-◌, ◌≤◌, ◌<◌, ◌≡◌, refl, inl, inr, arith, List, [], ◌∷◌, ◌++◌, some, Text,
  length, ℤ, Bool-cases, ◌==◌,
}
use operations_procedure_sup.ErrHandling.{OztResult}
use operations_procedure_sup.CmdRspBuf.Split.{ends_line, append_lines}
use operations_procedure_sup.CmdRspBuf.Split.Laws.{split_lines, on_first, append_lines-split}
use operations_procedure_sup.CmdRspBuf.Search.{word_size, c_str}
use operations_procedure_sup.CmdRspBuf.Received.{
  Call, begin_of_rsp, end_of_rsp, line, search_back_point, clear, update, line_by, chunk,
  last_reply, fail_strings, call, calls, received, Holds, call-Holds, behind_first, store-update,
  marks-update, shift_pop,
}
use operations_procedure_sup.CmdRspBuf.{
  CmdRspBuf, changed, mark_begin_of_rsp, mark_line, mark_line_by, moved_mark,
  mark_search_back_point, mark_end_of_rsp, append, scan_last_reply, scan_fail_loop,
  scan_for_fail_strings, clr_scr, update_store, reply_len, scan_from,
}

-- The three marks are line numbers of the store, or its size, or at most n beyond it.
pub record IsWithin (n : ℕ) (b : CmdRspBuf) : Type 0 where
  pub mark_within : b.mark ≤ length b.store + n
  pub search_within : b.search_back_point ≤ length b.store + n
  pub reply_within : b.end_of_last_reply ≤ length b.store + n

-- The number of `updateStore` since the last `markBeginOfRsp`, from the number before a call.
unfoldable pub updates : Call → ℕ → ℕ
updates begin_of_rsp n = 0
updates update n = suc n
updates _ n = n

unfoldable pub all_updates : List Call → ℕ → ℕ
unfolding updates
all_updates [] n = n
all_updates (c ∷ cs) n = all_updates cs (updates c n)

length-behind_first : (ls : List Text) → length ls ≤ suc (length (behind_first ls))
length-behind_first [] = omega arith
length-behind_first (l ∷ ls) = omega arith

length-on_first-le :
    (c : ℕ) (ls ms : List Text)
    → length ls ≤ length ms
    → length (on_first c ls) ≤ length (on_first c ms)
length-on_first-le c [] [] h = omega arith
length-on_first-le c [] (m ∷ ms) h = omega arith
length-on_first-le c (l ∷ ls) [] h = absurd (omega arith)
length-on_first-le c (l ∷ ls) (m ∷ ms) h = omega arith

length-split_lines-le : (s t : Text) → length (split_lines s) ≤ length (split_lines (s ++ t))
unfolding split_lines
length-split_lines-le [] t = omega arith
length-split_lines-le (c ∷ cs) t = elim (Bool-cases (ends_line c)) [
  | inl e ↦ rw e (omega (arith, length-split_lines-le cs t))
  | inr e ↦ rw e (length-on_first-le c _ _ (length-split_lines-le cs t))
]

append_lines-grows :
    (text more : Text) (ls : List Text)
    → ls ≡ split_lines text
    → length ls ≤ length (append_lines ls more)
append_lines-grows text more ls h =
    rw (h, append_lines-split text more) (length-split_lines-le text more)

moved_mark-le : (offset : ℤ) (mark n : ℕ) → moved_mark offset mark n ≤ n
unfolding moved_mark
moved_mark-le offset mark zero = omega arith
moved_mark-le offset mark (suc n) = ground arith

end-scan_fail_loop :
    (strings : List Text) (real_end : ℕ) (result : OztResult) (n : ℕ) (b : CmdRspBuf)
    → real_end ≤ length b.store + n
    → IsWithin n b
    → IsWithin n (scan_fail_loop strings real_end result b).1
unfolding scan_fail_loop scan_last_reply
end-scan_fail_loop [] real_end result n b h w = w
end-scan_fail_loop (s ∷ ss) real_end result n b h w =
    let b1 = record b { end_of_last_reply = length b.store } in
    elim (Bool-cases ((scan_from s real_end b1).0 == 0)) [
      | inl miss ↦ rw miss (end-scan_fail_loop ss real_end result n b1 h (ground arith))
      | inr hit ↦ rw hit (ground arith)
    ]

call-IsWithin :
    (c : Call) (text : Text) (n : ℕ) (b : CmdRspBuf)
    → Holds text b
    → IsWithin n b
    → IsWithin (updates c n) (call c b)
unfolding call updates mark_begin_of_rsp mark_end_of_rsp mark_line mark_search_back_point clr_scr
    mark_line_by append scan_last_reply scan_for_fail_strings changed
call-IsWithin begin_of_rsp text n b h w = omega arith
call-IsWithin end_of_rsp text n b h w = ground arith
call-IsWithin line text n b h w = ground arith
call-IsWithin search_back_point text n b h w = ground arith
call-IsWithin clear text n b h w = ground arith
call-IsWithin update text n b h w =
    let lines = ap length (store-update b) in
    let (m, s, r) = marks-update b in
    let le = length-behind_first b.store in
    record {
      mark_within = omega (arith, m, lines, le, w.mark_within);
      search_within = omega (arith, s, lines, le, w.search_within);
      reply_within = omega (arith, r, lines, le, w.reply_within);
    }
call-IsWithin (line_by offset) text n b h w =
    ground (arith, moved_mark-le offset b.mark (length b.store))
call-IsWithin (chunk more to_format) text n b h w =
    ground (arith, append_lines-grows text (c_str more) b.store h)
call-IsWithin (last_reply key) text n b h w = ground arith
call-IsWithin (fail_strings strings result retry) text n b h w =
    end-scan_fail_loop strings b.end_of_last_reply result n _ w.reply_within (ground arith)

-- Through any calls the three marks lie at most as far beyond the store as `updateStore` was called
-- since the last `markBeginOfRsp`; without it they are line numbers of the store or its size.
pub calls-IsWithin :
    (cs : List Call) (text : Text) (n : ℕ) (b : CmdRspBuf)
    → Holds text b
    → IsWithin n b
    → IsWithin (all_updates cs n) (calls cs b)
unfolding calls all_updates
calls-IsWithin [] text n b h w = w
calls-IsWithin (c ∷ cs) text n b h w =
    calls-IsWithin cs (received c text) (updates c n) (call c b) (call-Holds c text b h)
      (call-IsWithin c text n b h w)

-- `updateStore` takes the first line away and leaves the mark: with the mark at the end of the
-- store, `replyLen` wraps around.
pub reply_len-update_store :
    (b : CmdRspBuf) (l : Text) (ls : List Text)
    → suc (length ls) < word_size
    → (after : CmdRspBuf) × (update_store (record b { store = l ∷ ls; mark = suc (length ls) })
        ≡ some after)
      × (reply_len after ≡ word_size - 1)
unfolding update_store reply_len
reply_len-update_store b l ls small = (
  record b { store = ls; mark = suc (length ls) },
  rw (shift_pop l ls, update_store) refl,
  omega arith,
)
