-- ===== src/Tests/Buffers.antt =====
-- The theorems on the response buffer at a concrete one.
use operations_procedure_sup.Common.{
  ◌-◌, ◌+◌, true, false, ◌≡◌, refl, arith, List, [], ◌∷◌, some, codes, text_eq, pos, ◌⊎◌, get_or,
}
use operations_procedure_sup.CmdRspBuf.{
  CmdRspBuf, empty_buffer, scan, reply, reply_line, scan_last_reply, append, mark_line,
  mark_begin_of_rsp, update_store, shift_entries, pop_back,
}
use operations_procedure_sup.CmdRspBuf.Search.{c_str, not_accepted, first_match, find_text}
use operations_procedure_sup.CmdRspBuf.Split.Laws.{split_lines, joined}
use operations_procedure_sup.CmdRspBuf.Received.{
  Call, chunk, line, begin_of_rsp, last_reply, update, calls, all_received, Holds,
  calls-empty_buffer,
}
use operations_procedure_sup.CmdRspBuf.Marks.{IsWithin, all_updates, calls-IsWithin}
use operations_procedure_sup.CmdRspBuf.Replies.{FirstFrom, NoneAbove, reply-scan}

abbrev some_calls : List Call
some_calls =
    chunk (codes "<CACLP;") true
    ∷ (begin_of_rsp
        ∷ (chunk (codes "ORDERED\nFAU") true
            ∷ (line
                ∷ (chunk (codes "LT\nEND\n") true ∷ (last_reply (codes "FAULT") ∷ (update ∷ []))))))

calls-empty_buffer_example :
    ((calls some_calls (empty_buffer (pos 0))).store ≡ split_lines (all_received some_calls []))
    × (joined (calls some_calls (empty_buffer (pos 0))).store ≡ all_received some_calls [])
calls-empty_buffer_example = calls-empty_buffer some_calls (pos 0)

-- The text comes in two chunks, and the line that they share is one line; the first is taken away.
store_of_some_calls :
    (calls some_calls (empty_buffer (pos 0))).store ≡ codes "FAULT\n" ∷ (codes "END\n" ∷ [])
unfolding update_store shift_entries pop_back calls scan_last_reply append mark_line
    mark_begin_of_rsp
store_of_some_calls = refl

empty-Holds : Holds [] (empty_buffer (pos 0))
unfolding split_lines
empty-Holds = refl

calls-IsWithin_example :
    IsWithin (all_updates some_calls 0) (calls some_calls (empty_buffer (pos 0)))
calls-IsWithin_example =
    calls-IsWithin some_calls [] 0 (empty_buffer (pos 0)) empty-Holds (omega arith)

abbrev answered : CmdRspBuf
answered = record (empty_buffer (pos 0)) {
  store = codes "ORDERED\n" ∷ (codes "FAULT 1\n" ∷ (codes "FAULT 2\n" ∷ []));
  mark = 1;
}

fault_is_plain : text_eq (codes "FAULT") not_accepted ≡ false
unfolding text_eq
fault_is_plain = refl

reply-scan_example :
    ((j : _) × (p : _) × FirstFrom (c_str (codes "FAULT")) answered.store answered.mark j p
      × (scan (codes "FAULT") answered ≡ (j - answered.mark + 1, p + 1))
      × (reply (scan (codes "FAULT") answered).0 answered
          ≡ reply_line (c_str (get_or answered.store j []))))
    ⊎ (NoneAbove (c_str (codes "FAULT")) answered.store answered.mark
        × (scan (codes "FAULT") answered ≡ (0, 0)))
reply-scan_example = reply-scan (codes "FAULT") answered fault_is_plain (omega arith)

reply_of_scan : reply (scan (codes "FAULT") answered).0 answered ≡ some (codes "FAULT 1")
unfolding reply scan first_match find_text
reply_of_scan = refl
