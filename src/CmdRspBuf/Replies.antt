-- ===== src/CmdRspBuf/Replies.antt =====
-- `scan` and `reply` together: what `scan` answers is a line number for `reply`.
use operations_procedure_sup.Common.{
  ℕ, ◌+◌, ◌-◌, ◌%◌, ◌≤◌, ◌<◌, false, ◌≡◌, refl, ap, sym, ◌∙◌, ◌⊎◌, inl, inr, arith, List, [], none,
  some, Text, text_eq, length, get_or, get_or-drop, drop, length-drop,
}
use operations_procedure_sup.CmdRspBuf.Search.{
  word_size, c_str, find_text, from_mark, scan_lines, not_accepted,
}
use operations_procedure_sup.CmdRspBuf.Search.Laws.{first_match_facts}
use operations_procedure_sup.CmdRspBuf.{CmdRspBuf, reply, reply_line, scan_from, scan}

-- Line j is the first from `low` on that holds the key, at position p.
abbrev pub FirstFrom : Text → List Text → ℕ → ℕ → ℕ → Type 0
FirstFrom key lines low j p =
    (low ≤ j)
    × (j < length lines)
    × (find_text key (get_or lines j []) ≡ some p)
    × ((i : ℕ) → low ≤ i → i < j → find_text key (get_or lines i []) ≡ none)

abbrev pub NoneAbove : Text → List Text → ℕ → Type 0
NoneAbove key lines low =
    (i : ℕ) → low ≤ i → i < length lines → find_text key (get_or lines i []) ≡ none

from_mark_lem : (mark j : ℕ) → mark ≤ j → j + 1 < word_size → from_mark mark j ≡ j - mark + 1
unfolding from_mark
from_mark_lem mark j le small = omega arith

reply_at :
    (b : CmdRspBuf) (j : ℕ)
    → b.mark ≤ j
    → j < length b.store
    → length b.store < word_size
    → reply (j - b.mark + 1) b ≡ reply_line (c_str (get_or b.store j []))
unfolding reply
reply_at b j le lt small =
    let i : (j - b.mark + 1 + b.mark + word_size - 1) % word_size ≡ j = omega arith in
    rw (i, reply) (ground arith)

scan_facts :
    (key : Text) (b : CmdRspBuf)
    → text_eq key not_accepted ≡ false
    → ((j : ℕ) × (p : ℕ) × FirstFrom (c_str key) b.store b.mark j p
        × (scan key b ≡ (from_mark b.mark j, p + 1)))
      ⊎ (NoneAbove (c_str key) b.store b.mark × (scan key b ≡ (0, 0)))
unfolding scan scan_from scan_lines
scan_facts key b plain = elim (first_match_facts (c_str key) b.mark (drop b.mark b.store)) [
  | inl (k, p, (within, hit, before), r) ↦ inl (
    b.mark + k,
    p,
    (
      omega arith,
      omega (arith, length-drop b.mark b.store),
      ap (find_text (c_str key)) (sym (get_or-drop b.mark k b.store [])) ∙ hit,
      λ i lo hi. no_match i lo (before (i - b.mark) (omega arith)),
    ),
    rw (r, plain, scan_lines) refl,
  )
  | inr (all, r) ↦ inr (
    (λ i lo hi. no_match i lo (all (i - b.mark) (omega (arith, length-drop b.mark b.store)))),
    rw (r, scan_lines) refl,
  )
]
  where
    no_match :
        (i : ℕ)
        → b.mark ≤ i
        → find_text (c_str key) (get_or (drop b.mark b.store) (i - b.mark) []) ≡ none
        → find_text (c_str key) (get_or b.store i []) ≡ none
    no_match i lo h =
        let e : i ≡ b.mark + (i - b.mark) = omega arith in
        ap (λ j. find_text (c_str key) (get_or b.store j [])) e
        ∙ ap (find_text (c_str key)) (sym (get_or-drop b.mark (i - b.mark) b.store []))
        ∙ h

-- `scan` of a key other than NOT ACCEPTED, in a store of less than 2 ^ 64 - 1 lines: either no line
-- from the mark on holds the key and the result is 0, or the result is the number, counted from 1
-- at the mark, of the first line that holds it, `pos` is the place in that line counted from 1, and
-- `reply` of the result is that line without its line ends.
pub reply-scan :
    (key : Text) (b : CmdRspBuf)
    → text_eq key not_accepted ≡ false
    → length b.store + 1 < word_size
    → ((j : ℕ) × (p : ℕ) × FirstFrom (c_str key) b.store b.mark j p
        × (scan key b ≡ (j - b.mark + 1, p + 1))
        × (reply (scan key b).0 b ≡ reply_line (c_str (get_or b.store j []))))
      ⊎ (NoneAbove (c_str key) b.store b.mark × (scan key b ≡ (0, 0)))
reply-scan key b plain small = elim (scan_facts key b plain) [
  | inl (j, p, first, e) ↦
      let e' : scan key b ≡ (j - b.mark + 1, p + 1) =
        e ∙ ap (λ r. (r, p + 1)) (from_mark_lem b.mark j first.0 (omega (arith, first.1))) in
      inl (j, p, first, e', rw e' (reply_at b j first.0 first.1 (omega arith)))
  | inr (all, e) ↦ inr (all, e)
]
