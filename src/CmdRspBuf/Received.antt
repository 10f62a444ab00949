-- ===== src/CmdRspBuf/Received.antt =====
-- The buffer as an implementation of a plain text: the text received since the last
-- `markBeginOfRsp`, in whatever chunks it came, less the lines that `updateStore` took away.
use operations_procedure_sup.Common.{
  ℕ, Bool, ◌≡◌, refl, ap, ◌∙◌, inl, inr, Bool-cases, ◌==◌, length, List, [], ◌∷◌, ◌++◌, Text, ℤ,
  Option-cases, none, some, if◌then◌else◌,
}
use operations_procedure_sup.ErrHandling.{OztResult}
use operations_procedure_sup.CmdRspBuf.Split.{ends_line, append_lines}
use operations_procedure_sup.CmdRspBuf.Split.Laws.{
  split_lines, on_first, append_lines-split, joined, joined-split_lines,
}
use operations_procedure_sup.CmdRspBuf.Search.{c_str}
use operations_procedure_sup.CmdRspBuf.{
  CmdRspBuf, empty_buffer, changed, mark_begin_of_rsp, mark_line, mark_line_by,
  mark_search_back_point, mark_end_of_rsp, append, scan_last_reply, scan_fail_loop,
  scan_for_fail_strings, clr_scr, scan_from, update_store, shift_entries, pop_back,
}

-- The calls that change the buffer.
pub data Call : Type 0 where
  begin_of_rsp end_of_rsp line search_back_point clear update : Call
  line_by : ℤ → Call
  chunk : Text → Bool → Call
  last_reply : Text → Call
  fail_strings : List Text → OztResult → ℤ → Call

-- `updateStore` is undefined for an empty buffer, where a call of it changes nothing here.
unfoldable pub call : Call → CmdRspBuf → CmdRspBuf
unfolding update_store
call begin_of_rsp b = mark_begin_of_rsp b
call end_of_rsp b = mark_end_of_rsp b
call line b = mark_line b
call search_back_point b = mark_search_back_point b
call clear b = clr_scr b
call update b = elim (update_store b) [ none ↦ b | some b1 ↦ b1 ]
call (line_by offset) b = mark_line_by offset b
call (chunk text to_format) b = append text to_format b
call (last_reply key) b = (scan_last_reply key b).1
call (fail_strings strings result retry) b = (scan_for_fail_strings strings result retry b).1

unfoldable pub calls : List Call → CmdRspBuf → CmdRspBuf
unfolding call
calls [] b = b
calls (c ∷ cs) b = calls cs (call c b)

-- The text behind the first byte that ends a line.
unfoldable pub behind_line : Text → Text
behind_line [] = []
behind_line (c ∷ cs) = if ends_line c then cs else behind_line cs

-- What a call does to the text received.
unfoldable pub received : Call → Text → Text
unfolding behind_line
received begin_of_rsp text = []
received (chunk more to_format) text = text ++ c_str more
received update text = behind_line text
received _ text = text

unfoldable pub all_received : List Call → Text → Text
unfolding received
all_received [] text = text
all_received (c ∷ cs) text = all_received cs (received c text)

-- The store holds the lines of the text.
abbrev pub Holds : Text → CmdRspBuf → Type 0
Holds text b = b.store ≡ split_lines text

pub store-scan_fail_loop :
    (strings : List Text) (real_end : ℕ) (result : OztResult) (b : CmdRspBuf)
    → (scan_fail_loop strings real_end result b).1.store ≡ b.store
unfolding scan_fail_loop scan_last_reply
store-scan_fail_loop [] real_end result b = refl
store-scan_fail_loop (s ∷ ss) real_end result b =
    let b1 = record b { end_of_last_reply = length b.store } in
    elim (Bool-cases ((scan_from s real_end b1).0 == 0)) [
      | inl miss ↦ rw miss (store-scan_fail_loop ss real_end result b1)
      | inr hit ↦ rw hit refl
    ]

pop_back-cons :
    (m : Text) (xs : List Text) {r : List Text}
    → pop_back xs ≡ some r
    → pop_back (m ∷ xs) ≡ some (m ∷ r)
unfolding pop_back
pop_back-cons m [] h = cc
pop_back-cons m (x ∷ xs) h = rw (h, pop_back) refl

-- The loop and the `pop_back` of `updateStore` take the first line away.
pub shift_pop : (l : Text) (ls : List Text) → pop_back (shift_entries (l ∷ ls)) ≡ some ls
unfolding pop_back shift_entries
shift_pop l [] = refl
shift_pop l (m ∷ ls) = pop_back-cons m (shift_entries (m ∷ ls)) (shift_pop m ls)

abbrev pub behind_first : List Text → List Text
behind_first [] = []
behind_first (l ∷ ls) = ls

split_lines-behind_line :
    (text : Text) → behind_first (split_lines text) ≡ split_lines (behind_line text)
unfolding split_lines behind_line
split_lines-behind_line [] = refl
split_lines-behind_line (c ∷ cs) = elim (Bool-cases (ends_line c)) [
  | inl e ↦ rw e refl
  | inr e ↦ rw e (of_on_first c (split_lines cs) ∙ split_lines-behind_line cs)
]
  where
    of_on_first : (c : ℕ) (ls : List Text) → behind_first (on_first c ls) ≡ behind_first ls
    of_on_first c [] = refl
    of_on_first c (l ∷ ls) = refl

pub store-update : (b : CmdRspBuf) → (call update b).store ≡ behind_first b.store
unfolding call update_store
store-update b = lines_of_store b b.store refl
  where
    lines_of_store :
        (b : CmdRspBuf) (ls : List Text) → b.store ≡ ls → (call update b).store ≡ behind_first ls
    lines_of_store b [] e =
        let none_left : pop_back (shift_entries b.store) ≡ none =
          ap (λ ls. pop_back (shift_entries ls)) e ∙ unfold pop_back shift_entries in refl in
        rw (none_left, call, update_store) e
    lines_of_store b (l ∷ ls) e =
        rw (ap (λ ls. pop_back (shift_entries ls)) e ∙ shift_pop l ls, call, update_store) refl

-- `updateStore` leaves the marks.
pub marks-update :
    (b : CmdRspBuf)
    → ((call update b).mark ≡ b.mark)
      × ((call update b).search_back_point ≡ b.search_back_point)
      × ((call update b).end_of_last_reply ≡ b.end_of_last_reply)
unfolding call update_store
marks-update b = elim (Option-cases (pop_back (shift_entries b.store))) [
  | inl e ↦ rw (e, call, update_store) (refl, refl, refl)
  | inr (ls, e) ↦ rw (e, call, update_store) (refl, refl, refl)
]

pub call-Holds :
    (c : Call) (text : Text) (b : CmdRspBuf) → Holds text b → Holds (received c text) (call c b)
unfolding call received mark_begin_of_rsp mark_end_of_rsp mark_line mark_search_back_point clr_scr
    mark_line_by append scan_last_reply scan_for_fail_strings changed
call-Holds begin_of_rsp text b h = unfold split_lines in refl
call-Holds end_of_rsp text b h = h
call-Holds line text b h = h
call-Holds search_back_point text b h = h
call-Holds clear text b h = h
call-Holds update text b h = store-update b ∙ ap behind_first h ∙ split_lines-behind_line text
call-Holds (line_by offset) text b h = h
call-Holds (chunk more to_format) text b h =
    ap (λ ls. append_lines ls (c_str more)) h ∙ append_lines-split text (c_str more)
call-Holds (last_reply key) text b h = h
call-Holds (fail_strings strings result retry) text b h =
    store-scan_fail_loop strings b.end_of_last_reply result _ ∙ h

-- Whatever calls are made, the store holds the lines of the text received.
pub calls-Holds :
    (cs : List Call) (text : Text) (b : CmdRspBuf)
    → Holds text b
    → Holds (all_received cs text) (calls cs b)
unfolding calls all_received
calls-Holds [] text b h = h
calls-Holds (c ∷ cs) text b h = calls-Holds cs (received c text) (call c b) (call-Holds c text b h)

-- From an empty buffer, whatever calls are made: the store is the text received since the last
-- `markBeginOfRsp` less the lines that `updateStore` took away in front of it, cut into lines, and
-- its lines in one text are that text. How the text came in chunks makes no difference.
pub calls-empty_buffer :
    (cs : List Call) (retry : ℤ)
    → let b = calls cs (empty_buffer retry) in
      (b.store ≡ split_lines (all_received cs [])) × (joined b.store ≡ all_received cs [])
calls-empty_buffer cs retry =
    let lines = calls-Holds cs [] (empty_buffer retry) (unfold split_lines in refl) in
    (lines, ap joined lines ∙ joined-split_lines (all_received cs []))
