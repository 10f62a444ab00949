-- ===== src/CmdRspBuf/Split/Laws.antt =====
-- The loop against a recursive description of the lines of a text, which makes the store a view of
-- the text received.
use operations_procedure_sup.Common.{
  ℕ, zero, suc, ◌≤◌, true, false, ◌≡◌, refl, ap, sym, ◌∙◌, inl, inr, arith, List, [], ◌∷◌, ◌++◌,
  Text, if◌then◌else◌, length, Bool-cases,
}
use operations_procedure_sup.CmdRspBuf.Split.{
  ends_line, cut_line, push_lines, lines_of, append_lines,
}

-- A byte in front of the first line.
abbrev pub on_first : ℕ → List Text → List Text
on_first c [] = (c ∷ []) ∷ []
on_first c (l ∷ ls) = (c ∷ l) ∷ ls

-- The lines of a text, byte by byte.
unfoldable pub split_lines : Text → List Text
split_lines [] = []
split_lines (c ∷ cs) =
    let rest = split_lines cs in if ends_line c then (c ∷ []) ∷ rest else on_first c rest

-- All the lines in one text.
unfoldable pub joined : List Text → Text
joined [] = []
joined (l ∷ ls) = l ++ joined ls

split_lines-cut :
    (c : ℕ) (cs : Text)
    → split_lines (c ∷ cs) ≡ (cut_line (c ∷ cs)).0 ∷ split_lines (cut_line (c ∷ cs)).1
unfolding split_lines cut_line
split_lines-cut c [] = ground arith
split_lines-cut c (d ∷ ds) = elim (Bool-cases (ends_line c)) [
  | inl e ↦ rw e refl
  | inr e ↦ rw e (ap (on_first c) (split_lines-cut d ds))
]

cut_line-le : (cs : Text) → length (cut_line cs).1 ≤ length cs
unfolding cut_line
cut_line-le [] = omega arith
cut_line-le (c ∷ cs) = ground (arith, cut_line-le cs)

cut_line-lt : (c : ℕ) (cs : Text) → length (cut_line (c ∷ cs)).1 ≤ length cs
unfolding cut_line
cut_line-lt c cs = ground (arith, cut_line-le cs)

push_lines-split : (f : ℕ) (text : Text) → length text ≤ f → push_lines f text ≡ split_lines text
unfolding push_lines split_lines
push_lines-split zero [] h = refl
push_lines-split zero (c ∷ cs) h = absurd (omega arith)
push_lines-split (suc f) [] h = refl
push_lines-split (suc f) (c ∷ cs) h =
    ap (λ ls. (cut_line (c ∷ cs)).0 ∷ ls)
      (push_lines-split f (cut_line (c ∷ cs)).1 (omega (arith, cut_line-lt c cs)))
    ∙ sym (split_lines-cut c cs)

-- The loop of `append` cuts a text into its lines; its rounds are enough.
pub lines_of-eq-split_lines : (text : Text) → lines_of text ≡ split_lines text
unfolding lines_of
lines_of-eq-split_lines text = push_lines-split (length text) text (omega arith)

on_first-append :
    (c : ℕ) (ls : List Text) (t : Text)
    → ends_line c ≡ false
    → append_lines (on_first c ls) t ≡ on_first c (append_lines ls t)
unfolding append_lines
on_first-append c [] t h =
    lines_of-eq-split_lines (c ∷ t)
    ∙ unfold split_lines in
      rw (h, split_lines) refl ∙ ap (on_first c) (sym (lines_of-eq-split_lines t))
on_first-append c (l ∷ []) t h =
    lines_of-eq-split_lines (c ∷ (l ++ t))
    ∙ unfold split_lines in
      rw (h, split_lines) refl ∙ ap (on_first c) (sym (lines_of-eq-split_lines (l ++ t)))
on_first-append c (l ∷ (m ∷ ls)) t h = refl

closed_line-append :
    (c : ℕ) (ls : List Text) (t : Text)
    → ends_line c ≡ true
    → append_lines ((c ∷ []) ∷ ls) t ≡ (c ∷ []) ∷ append_lines ls t
unfolding append_lines
closed_line-append c [] t h =
    lines_of-eq-split_lines (c ∷ t)
    ∙ unfold split_lines in
      rw (h, split_lines) refl ∙ ap (λ ls. (c ∷ []) ∷ ls) (sym (lines_of-eq-split_lines t))
closed_line-append c (m ∷ ls) t h = refl

-- Lines that are the split of a text stay so under the next chunk.
pub append_lines-split : (s t : Text) → append_lines (split_lines s) t ≡ split_lines (s ++ t)
unfolding split_lines
append_lines-split [] t = unfold append_lines in lines_of-eq-split_lines t
append_lines-split (c ∷ cs) t = elim (Bool-cases (ends_line c)) [
  | inl e ↦ rw e (
      closed_line-append c (split_lines cs) t e
      ∙ ap (λ ls. (c ∷ []) ∷ ls) (append_lines-split cs t))
  | inr e ↦
      rw e (on_first-append c (split_lines cs) t e ∙ ap (on_first c) (append_lines-split cs t))
]

pub joined-split_lines : (s : Text) → joined (split_lines s) ≡ s
unfolding joined split_lines
joined-split_lines [] = refl
joined-split_lines (c ∷ cs) = elim (Bool-cases (ends_line c)) [
  | inl e ↦ rw e (ap (λ r. c ∷ r) (joined-split_lines cs))
  | inr e ↦ rw e (joined-on_first c (split_lines cs) ∙ ap (λ r. c ∷ r) (joined-split_lines cs))
]
  where
    joined-on_first : (c : ℕ) (ls : List Text) → joined (on_first c ls) ≡ c ∷ joined ls
    joined-on_first c [] = refl
    joined-on_first c (l ∷ ls) = refl
