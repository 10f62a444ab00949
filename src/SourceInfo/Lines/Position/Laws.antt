-- ===== src/SourceInfo/Lines/Position/Laws.antt =====
-- `setLine` and `skipElse` move to a command of the file, or report that there is none.
use operations_procedure_sup.Common.{
  ℕ, ◌≤◌, ◌<◌, true, false, ◌≡◌, refl, ◌∙◌, inl, inr, arith, ltb, lt→ltb, length, pos, Bool-cases,
}
use operations_procedure_sup.ErrHandling.{is_ok}
use operations_procedure_sup.SourceInfo.{SourceInfo, at, line_at, below_entries}
use operations_procedure_sup.SourceInfo.Lines.{is_commentary, skip_commentry_lines, settle}
use operations_procedure_sup.SourceInfo.Lines.Laws.{settle-Moves}
use operations_procedure_sup.SourceInfo.Lines.Position.{set_line}

set_line-settle :
    (s : SourceInfo) (n : ℕ)
    → n < length s.text
    → set_line (pos n) true s ≡ (
      (settle (skip_commentry_lines (at s (pos n)))).0,
      is_ok (settle (skip_commentry_lines (at s (pos n)))).1.code,
    )
unfolding set_line settle is_ok
set_line-settle s n h =
    rw (lt→ltb n (length s.text) h)
      (elim (Bool-cases (
        below_entries (skip_commentry_lines (at s (pos n))).curr_line
          (skip_commentry_lines (at s (pos n))).text)) [ inl b ↦ rw b | inr b ↦ rw b ])

-- A line that holds a command is where `setLine` stops.
pub set_line_here :
    (s : SourceInfo) (n : ℕ)
    → n < length s.text
    → is_commentary (line_at s.text n) ≡ false
    → set_line (pos n) true s ≡ (at s (pos n), true)
set_line_here s n h c = elim (settle-Moves s n (omega arith)) [
  | inl (m, low, lt, nc, all, e) ↦
      let same : m ≡ n = first m low all in
      set_line-settle s n h ∙ rw (e, same) (unfold is_ok in refl)
  | inr (all, e) ↦ cc (all n (omega arith) h)
]
  where
    first :
        (m : ℕ)
        → n ≤ m
        → ((j : ℕ) → n ≤ j → j < m → is_commentary (line_at s.text j) ≡ true)
        → m ≡ n
    first m low all = elim (Bool-cases (ltb n m)) [
      | inl lt ↦ cc (all n (omega arith) (ground arith))
      | inr ge ↦ ground arith
    ]
