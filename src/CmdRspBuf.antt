-- ===== src/CmdRspBuf.antt =====
-- ops-enm-parser/src/main/cpp/parse/OZT_CmdRspBuf.C: the lines that a network element has answered,
-- and the marks in them. Line numbers and sizes are `size_t`, which wraps around.
pub mod Split
pub mod Search
pub mod Received
pub mod Marks
pub mod Replies
use operations_procedure_sup.Common.{
  ℕ, zero, suc, ◌+◌, ◌-◌, ◌%◌, Bool, true, false, not, ◌||◌, List, [], ◌∷◌, Option, none, some,
  Text, ltb, leb, ◌==◌, if◌then◌else◌, length, get_or, ℤ, pos, negsuc, ◌+ℤ◌, ◌-ℤ◌, ltb_ℤ, leb_ℤ,
  eqb_ℤ, minus_one,
}
use operations_procedure_sup.ErrHandling.{OztResult, of_info, reply_check_fail}
use operations_procedure_sup.Value.Words.{wrap64}
use operations_procedure_sup.CmdRspBuf.Split.{append_lines}
use operations_procedure_sup.CmdRspBuf.Search.{word_size, c_str, scan_lines}

-- What the listeners of the buffer can read when `changed` calls them: the argument, the text and
-- the two flags.
pub record Notice : Type 0 where
  pub delta_mark : Option ℤ
  pub text : Text
  pub format : Bool
  pub clear : Bool

-- `OZT_CmdRspBuf`, with the notices in order, the latest first, and the global `funbusyRetryCnt`.
pub record CmdRspBuf : Type 0 where
  pub store : List Text
  pub to_be_update_text : Text
  pub end_of_last_reply : ℕ
  pub mark : ℕ
  pub search_back_point : ℕ
  pub rsp_ended : Bool
  pub scr_to_be_cleared : Bool
  pub to_be_formatted : Bool
  pub changes : List Notice
  pub funbusy_retry_cnt : ℤ

-- `OZT_CmdRspBuf()`
abbrev pub empty_buffer : ℤ → CmdRspBuf
empty_buffer retry = record {
  store = [];
  to_be_update_text = [];
  end_of_last_reply = 0;
  mark = 0;
  search_back_point = 0;
  rsp_ended = false;
  scr_to_be_cleared = false;
  to_be_formatted = false;
  changes = [];
  funbusy_retry_cnt = retry;
}

-- `changed`
unfoldable pub changed : Option ℤ → CmdRspBuf → CmdRspBuf
changed delta b =
    let seen : Notice = record {
      delta_mark = delta;
      text = b.to_be_update_text;
      format = b.to_be_formatted;
      clear = b.scr_to_be_cleared;
    } in
    record b { changes = seen ∷ b.changes }

-- `getStoreSize`
abbrev pub store_size : CmdRspBuf → ℕ
store_size b = length b.store

-- `markBeginOfRsp`
unfoldable pub mark_begin_of_rsp : CmdRspBuf → CmdRspBuf
unfolding changed
mark_begin_of_rsp b =
    let b1 = record b { to_be_update_text = []; to_be_formatted = false } in
    let b2 = changed (some (pos (store_size b) -ℤ pos b.mark)) b1 in
    record b2 {
      search_back_point = 0;
      rsp_ended = false;
      scr_to_be_cleared = false;
      store = [];
      mark = 0;
      end_of_last_reply = 0;
    }

-- The line ends at the end of a line are removed.
unfoldable pub drop_line_ends : Text → Text
drop_line_ends [] = []
drop_line_ends (c ∷ cs) = elim (drop_line_ends cs) [
  | [] ↦ if c == b'\n' || c == b'\r' then [] else c ∷ []
  | d ∷ ds ↦ c ∷ d ∷ ds
]

-- The line that `reply` has found: reading the last byte of an empty line is a bounds error.
unfoldable pub reply_line : Text → Option Text
unfolding drop_line_ends
reply_line [] = none
reply_line (c ∷ cs) = some (drop_line_ends (c ∷ cs))

-- `reply`. The test `(lineIndex + mark - 1) < 0` is of an unsigned number, and never holds.
unfoldable pub reply : ℕ → CmdRspBuf → Option Text
unfolding reply_line c_str
reply line_index b =
    let i = (line_index + b.mark + word_size - 1) % word_size in
    if store_size b == 0
    then some []
    else if leb (store_size b) i
    then some []
    else reply_line (c_str (get_or b.store i []))

-- `replyLen`
unfoldable pub reply_len : CmdRspBuf → ℕ
reply_len b = (store_size b + word_size - b.mark) % word_size

-- `markLine()`
unfoldable pub mark_line : CmdRspBuf → CmdRspBuf
unfolding changed
mark_line b =
    let size = store_size b in
    changed (some (pos size -ℤ pos b.mark))
      (record b { mark = size; search_back_point = size; rsp_ended = false })

-- Where `markLine(offset)` puts the mark.
unfoldable pub moved_mark : ℤ → ℕ → ℕ → ℕ
moved_mark offset mark zero = 0
moved_mark offset mark (suc n) = elim (wrap64 (pos mark +ℤ offset)) [
  | negsuc k ↦ 0
  | pos m ↦ if ltb (suc n) m then suc n else m
]

-- `markLine(offset)`
unfoldable pub mark_line_by : ℤ → CmdRspBuf → CmdRspBuf
unfolding changed moved_mark
mark_line_by offset b =
    let new = moved_mark offset b.mark (store_size b) in
    changed (some (pos new -ℤ pos b.mark)) (record b { mark = new })

-- `markSearchBackPoint`
unfoldable pub mark_search_back_point : CmdRspBuf → CmdRspBuf
unfolding changed
mark_search_back_point b =
    changed none (record b { search_back_point = store_size b; rsp_ended = false })

-- `markEndOfRsp`
unfoldable pub mark_end_of_rsp : CmdRspBuf → CmdRspBuf
unfolding changed
mark_end_of_rsp b =
    changed none (record b { rsp_ended = true; to_be_update_text = []; to_be_formatted = false })

-- `append`
unfoldable pub append : Text → Bool → CmdRspBuf → CmdRspBuf
unfolding changed append_lines c_str
append chunk to_format b =
    let b1 = record b {
      to_be_update_text = chunk;
      to_be_formatted = to_format;
      store = append_lines b.store (c_str chunk);
    } in
    record (changed none b1) { to_be_update_text = []; to_be_formatted = false }

-- `scan(key, startLine, pos)`
unfoldable pub scan_from : Text → ℕ → CmdRspBuf → ℕ × ℕ
unfolding scan_lines
scan_from key start b = scan_lines b.funbusy_retry_cnt key b.mark start b.store

-- `scan(key, pos)` and `scan(key)`
unfoldable pub scan : Text → CmdRspBuf → ℕ × ℕ
unfolding scan_from
scan key b = scan_from key b.mark b

-- The line at which `find` starts: a negative number that is not -1 is a number behind all lines.
unfoldable pub search_start : ℤ → CmdRspBuf → ℕ
search_start (pos n) b = n
search_start (negsuc zero) b = b.search_back_point
search_start (negsuc (suc n)) b = word_size - suc (suc n)

-- `find`
unfoldable pub find : Text → ℤ → CmdRspBuf → Bool
unfolding scan_from search_start
find [] start_mark b = true
find (c ∷ cs) start_mark b = not ((scan_from (c ∷ cs) (search_start start_mark b) b).0 == 0)

-- `scanLastReply`
unfoldable pub scan_last_reply : Text → CmdRspBuf → ℕ × CmdRspBuf
scan_last_reply key b =
    let b1 = record b { end_of_last_reply = store_size b } in
    ((scan_from key b.end_of_last_reply b1).0, b1)

-- The loop of `scanForFailStrings`, with the end of the last reply as it was before.
unfoldable pub scan_fail_loop : List Text → ℕ → OztResult → CmdRspBuf → OztResult × CmdRspBuf
unfolding scan_last_reply
scan_fail_loop [] real_end result b = (result, b)
scan_fail_loop (s ∷ ss) real_end result b =
    let (found, b1) = scan_last_reply s (record b { end_of_last_reply = real_end }) in
    let rest = scan_fail_loop ss real_end result b1 in
    if not (found == 0) then (of_info reply_check_fail s, b1) else rest

-- `scanForFailStrings`
unfoldable pub scan_for_fail_strings : List Text → OztResult → ℤ → CmdRspBuf → OztResult × CmdRspBuf
unfolding scan_fail_loop
scan_for_fail_strings strings result retry b =
    scan_fail_loop strings b.end_of_last_reply result (record b { funbusy_retry_cnt = retry })

-- `clrScr`
unfoldable pub clr_scr : CmdRspBuf → CmdRspBuf
unfolding changed
clr_scr b =
    let b1 = record b {
      scr_to_be_cleared = true;
      to_be_update_text = [];
      to_be_formatted = false;
    } in
    record (changed none b1) { scr_to_be_cleared = false }

-- `getLastText`
unfoldable pub get_last_text : CmdRspBuf → Text
unfolding c_str
get_last_text b = last_text b.store
  where
    last_text : List Text → Text
    last_text [] = []
    last_text (l ∷ []) = l
    last_text (l ∷ (m ∷ [])) = c_str l
    last_text (l ∷ (m ∷ (n ∷ ls))) = last_text (m ∷ (n ∷ ls))

-- The loop of `updateStore`: each entry takes the place of the one in front, and the last stays.
unfoldable pub shift_entries : List Text → List Text
shift_entries [] = []
shift_entries (l ∷ []) = l ∷ []
shift_entries (l ∷ (m ∷ ls)) = m ∷ shift_entries (m ∷ ls)

-- `pop_back`, which is undefined on an empty vector.
unfoldable pub pop_back : List Text → Option (List Text)
pop_back [] = none
pop_back (l ∷ []) = some []
pop_back (l ∷ (m ∷ ls)) = elim (pop_back (m ∷ ls)) [ none ↦ none | some r ↦ some (l ∷ r) ]

-- `updateStore`
unfoldable pub update_store : CmdRspBuf → Option CmdRspBuf
unfolding shift_entries pop_back
update_store b = elim (pop_back (shift_entries b.store)) [
  | none ↦ none
  | some lines ↦ some (record b { store = lines })
]
