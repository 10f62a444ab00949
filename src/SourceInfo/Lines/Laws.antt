-- ===== src/SourceInfo/Lines/Laws.antt =====
-- Where the position goes: behind a command, over commentary, or to "no line".
use operations_procedure_sup.Common.{
  ℕ, zero, suc, ◌+◌, ◌-◌, ◌≤◌, ◌<◌, Bool, true, false, ◌||◌, ◌≡◌, ap, sym, ◌∙◌, ltb→lt, ◌⊎◌, inl,
  inr, arith, List, [], ◌∷◌, ◌++◌, Text, ltb, if◌then◌else◌, length, drop, get_or, get_or-drop,
  length-drop, pos, minus_one, +ℤ-pos, +ℤ_zero, Bool-cases,
}
use operations_procedure_sup.Tools.{Tools, found}
use operations_procedure_sup.ErrHandling.{OztResult, of_code, no_problem, hit_eof}
use operations_procedure_sup.Misc.{is_empty_line}
use operations_procedure_sup.SourceInfo.{SourceInfo, at, line_at}
use operations_procedure_sup.SourceInfo.Patterns.{script_cmd_checker}
use operations_procedure_sup.SourceInfo.Comments.{strip_all_comment, to_continue}
use operations_procedure_sup.SourceInfo.Lines.{
  is_commentary, skip_from, skipped, skip_commentry_lines, join, compose, compose_script_cmd,
  compose_host_cmd, host_line, host_continues, curr_cmd_at, curr_cmd, curr_cmd_length, settle,
  advance,
}

-- A command has at least one line, and none behind the last.
join_bounds :
    (strip : Text → Text) (more : Text → Bool) (looking : Bool) (temp blk : Text) (n : ℕ)
    (ls : List Text)
    → (suc n ≤ (join strip more looking temp blk n ls).1)
      × ((join strip more looking temp blk n ls).1 ≤ suc n + length ls)
unfolding join
join_bounds strip more looking temp blk n [] = omega arith
join_bounds strip more looking temp blk n (l ∷ ls) =
    let e = is_empty_line (strip l) in
    let later = join_bounds strip more e (strip l) (if e then blk else blk ++ strip l) (suc n) ls in
    elim (Bool-cases (looking || more temp)) [
      | inl h ↦ rw h (omega (arith, later.0), omega (arith, later.1))
      | inr h ↦ rw h (omega arith, omega arith)
    ]

compose_bounds :
    (strip : Text → Text) (more : Text → Bool) (lines : List Text) (n : ℕ)
    → n < length lines
    → (1 ≤ (compose strip more lines n).1) × (n + (compose strip more lines n).1 ≤ length lines)
unfolding compose
compose_bounds strip more lines n h =
    let first = strip (line_at lines n) in
    let b = join_bounds strip more false first first 0 (drop (suc n) lines) in
    (omega (arith, b.0), omega (arith, b.1, length-drop (suc n) lines))

-- The skip over commentary passes the commentary lines, and stops at the first other one.
skip_from_facts :
    (n : ℕ) (ls : List Text)
    → (k : ℕ) × (skip_from n ls ≡ n + k)
      × (k ≤ length ls)
      × (k < length ls → is_commentary (get_or ls k []) ≡ false)
      × ((j : ℕ) → j < k → is_commentary (get_or ls j []) ≡ true)
unfolding skip_from
skip_from_facts n [] =
    (0, omega arith, omega arith, λ h. absurd (omega arith), λ j h. absurd (omega arith))
skip_from_facts n (l ∷ ls) = elim (Bool-cases (is_commentary l)) [
  | inl c ↦
      let (k, e, le, stops, passes) = skip_from_facts (suc n) ls in
      (suc k, rw c (e ∙ omega arith), omega arith, λ h. stops (omega arith), passed c passes)
  | inr c ↦ (0, rw c (omega arith), omega arith, λ h. c, λ j h. absurd (omega arith))
]
  where
    passed :
        {k : ℕ}
        → is_commentary l ≡ true
        → ((j : ℕ) → j < k → is_commentary (get_or ls j []) ≡ true)
        → (j : ℕ) → j < suc k
        → is_commentary (get_or (l ∷ ls) j []) ≡ true
    passed c passes zero h = c
    passed c passes (suc j) h = passes j (omega arith)

-- Where a move to line `low` or the first command behind it ends: at that command, or, if all the
-- lines from there on are commentary, at "no line".
abbrev pub Moves : SourceInfo → ℕ → SourceInfo × OztResult → Type 0
Moves s low p =
    ((m : ℕ) × (low ≤ m)
      × (m < length s.text)
      × (is_commentary (line_at s.text m) ≡ false)
      × ((j : ℕ) → low ≤ j → j < m → is_commentary (line_at s.text j) ≡ true)
      × (p ≡ (record s { curr_line = pos m }, of_code no_problem)))
    ⊎ (((j : ℕ) → low ≤ j → j < length s.text → is_commentary (line_at s.text j) ≡ true)
        × (p ≡ (record s { curr_line = minus_one }, of_code hit_eof)))

pub settle-Moves :
    (s : SourceInfo) (n : ℕ)
    → n ≤ length s.text
    → Moves s n (settle (skip_commentry_lines (record s { curr_line = pos n })))
unfolding settle skip_commentry_lines
settle-Moves s n h =
    let (k, e, le, stops, passes) = skip_from_facts n (drop n s.text) in
    let len = length-drop n s.text in
    elim (Bool-cases (ltb (n + k) (length s.text))) [
      | inl inside ↦ inl (
        n + k,
        omega arith,
        ltb→lt _ _ inside,
        sym (ap is_commentary (get_or-drop n k s.text []))
            ∙ stops (omega (arith, ltb→lt (n + k) (length s.text) inside)),
        shifted passes,
        rw e (rw inside),
      )
      | inr outside ↦
          inr ((λ j a b. shifted passes j a (omega (arith, above k outside))), rw e (rw outside))
    ]
  where
    above : (k : ℕ) → ltb (n + k) (length s.text) ≡ false → length s.text ≤ n + k
    above k h = ground arith

    shifted :
        {k : ℕ}
        → ((j : ℕ) → j < k → is_commentary (get_or (drop n s.text) j []) ≡ true)
        → (j : ℕ) → n ≤ j
        → j < n + k
        → is_commentary (line_at s.text j) ≡ true
    shifted passes j a b =
        let e : j ≡ n + (j - n) = omega arith in
        ap (λ i. is_commentary (line_at s.text i)) e
        ∙ sym (ap is_commentary (get_or-drop n (j - n) s.text []))
        ∙ passes (j - n) (omega arith)

module _ (t : Tools) where
  -- The command at a line of the text ends at a line of the text.
  pub curr_cmd_at_bounds :
      (lines : List Text) (n : ℕ)
      → n < length lines
      → (1 ≤ (curr_cmd_at t lines (pos n)).1) × (n + (curr_cmd_at t lines (pos n)).1 ≤ length lines)
  unfolding curr_cmd_at compose_script_cmd compose_host_cmd
  curr_cmd_at_bounds lines n h =
      elim (Bool-cases
        (found (t.index script_cmd_checker (strip_all_comment (line_at lines n)) 0))) [
          | inl c ↦ rw c (compose_bounds strip_all_comment (to_continue t) lines n h)
          | inr c ↦ rw c (compose_bounds (host_line t) (host_continues t) lines n h)
        ]

  -- From a line of the text, `advance` goes to the first command behind the current one, or to
  -- "no line" with HIT_EOF if only commentary is left; it changes nothing else.
  pub advance-Moves :
      (s : SourceInfo) (n : ℕ)
      → n < length s.text
      → (n < n + curr_cmd_length t (at s (pos n)))
        × Moves s (n + curr_cmd_length t (at s (pos n))) (advance t (at s (pos n)))
  unfolding advance curr_cmd_length curr_cmd
  advance-Moves s n h =
      let b = curr_cmd_at_bounds s.text n h in
      let len = (curr_cmd_at t s.text (pos n)).1 in
      (omega (arith, b.0), rw (+ℤ-pos n len) (settle-Moves s (n + len) b.1))

  -- From "no line" there is nothing to advance to.
  pub advance_done :
      (s : SourceInfo) → advance t (at s minus_one) ≡ (at s minus_one, of_code hit_eof)
  unfolding advance curr_cmd_length curr_cmd settle skip_commentry_lines curr_cmd_at skipped
  advance_done s = rw (+ℤ_zero minus_one)

  -- `advance` leaves the stack as it is.
  pub flow_stack-advance : (s : SourceInfo) → (advance t s).0.flow_stack ≡ s.flow_stack
  unfolding advance settle skip_commentry_lines
  flow_stack-advance s = ground arith
