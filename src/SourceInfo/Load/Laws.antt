-- ===== src/SourceInfo/Load/Laws.antt =====
-- The label table of a loaded file: a label stands under the number of the line that defines it,
-- counted from 1, and a jump goes there.
use operations_procedure_sup.Common.{
  ℕ, suc, ◌+◌, Bool, true, false, ◌≡◌, refl, ap, sym, ◌∙◌, inl, inr, arith, List, [], ◌∷◌, ◌++◌,
  Option, none, some, Text, text_eq, text_eq_iff, if◌then◌else◌, length, ℤ, pos, Bool-cases,
  Option-cases,
}
use operations_procedure_sup.Tools.{Tools, Dict, find_value}
use operations_procedure_sup.Misc.{trim}
use operations_procedure_sup.SourceInfo.Labels.{label_of, find_and_insert_label}
use operations_procedure_sup.SourceInfo.{SourceInfo}
use operations_procedure_sup.SourceInfo.Labels.Table.{entered, find_value-insert_label}
use operations_procedure_sup.SourceInfo.Load.{read_lines}

abbrev same_label : Text → Option Text → Bool
same_label label none = false
same_label label (some j) = text_eq j label

true_ne_false : ¬ (true ≡ false)
true_ne_false e = cc e

module _ (t : Tools) where
  -- Whether a line of the file defines the label.
  abbrev pub defines : Text → Text → Bool
  defines label l = same_label label (label_of t (trim l))

  abbrev pub none_defines : Text → List Text → Bool
  none_defines label [] = true
  none_defines label (l ∷ ls) = if defines label l then false else none_defines label ls

  -- The entry of a label behind the lines, from the entry before them.
  abbrev entry : Text → ℕ → List Text → Option ℤ → Option ℤ
  entry label n [] o = o
  entry label n (l ∷ ls) o =
      entry label (suc n) ls (if defines label l then entered o (suc n) else o)

  find_value-find_and_insert_label :
      (label l : Text) (n : ℕ) (tbl : Dict ℤ)
      → find_value label (find_and_insert_label t l (pos n) tbl) ≡ (
          if same_label label (label_of t l)
          then entered (find_value label tbl) n
          else find_value label tbl)
  unfolding find_and_insert_label
  find_value-find_and_insert_label label l n tbl = elim (Option-cases (label_of t l)) [
    | inl e ↦ rw (e, find_and_insert_label) refl
    | inr (j, e) ↦ rw (e, find_and_insert_label) (find_value-insert_label j label n tbl ∙ of_same j)
  ]
    where
      of_same :
          (j : Text)
          → (if text_eq j label then entered (find_value j tbl) n else find_value label tbl)
            ≡ (if text_eq j label then entered (find_value label tbl) n else find_value label tbl)
      of_same j = ground (arith, text_eq_iff j label)

  find_value-read_lines :
      (label : Text) (n : ℕ) (ls : List Text) (tbl : Dict ℤ)
      → find_value label (read_lines t n ls tbl).1 ≡ entry label n ls (find_value label tbl)
  unfolding read_lines
  find_value-read_lines label n [] tbl = refl
  find_value-read_lines label n (l ∷ ls) tbl =
      find_value-read_lines label (suc n) ls (find_and_insert_label t (trim l) (pos (suc n)) tbl)
      ∙ ap (entry label (suc n) ls) (find_value-find_and_insert_label label (trim l) (suc n) tbl)

  none_defines-split :
      (label l : Text) (ls : List Text)
      → none_defines label (l ∷ ls) ≡ true
      → (defines label l ≡ false) × (none_defines label ls ≡ true)
  none_defines-split label l ls h = elim (Bool-cases (defines label l)) [
    | inl d ↦ absurd (true_ne_false (sym h ∙ rw d))
    | inr d ↦ (d, rw d at h)
  ]

  entry-none_defines :
      (label : Text) (n : ℕ) (ls : List Text) (o : Option ℤ)
      → none_defines label ls ≡ true
      → entry label n ls o ≡ o
  entry-none_defines label n [] o h = refl
  entry-none_defines label n (l ∷ ls) o h =
      let (d, h') = none_defines-split label l ls h in
      rw d (entry-none_defines label (suc n) ls o h')

  entry-++ :
      (label : Text) (n : ℕ) (before after : List Text) (o : Option ℤ)
      → none_defines label before ≡ true
      → entry label n (before ++ after) o ≡ entry label (n + length before) after o
  entry-++ label n [] after o h =
      let e : n ≡ n + 0 = omega arith in ap (λ k. entry label k after o) e
  entry-++ label n (l ∷ before) after o h =
      let (d, h') = none_defines-split label l before h in
      let e : suc n + length before ≡ n + suc (length before) = omega arith in
      rw (d, entry) (entry-++ label (suc n) before after o h' ∙ ap (λ k. entry label k after o) e)

  entry_start :
      (label : Text) (before after : List Text)
      → none_defines label before ≡ true
      → entry label 0 (before ++ after) none ≡ entry label (length before) after none
  entry_start label before after h =
      let e : 0 + length before ≡ length before = omega arith in
      entry-++ label 0 before after none h ∙ ap (λ k. entry label k after none) e

  -- A label that one line of the file defines and no other stands in the table under the number of
  -- that line.
  pub find_value-defined_once :
      (label l : Text) (before after : List Text)
      → none_defines label before ≡ true
      → defines label l ≡ true
      → none_defines label after ≡ true
      → find_value label (read_lines t 0 (before ++ l ∷ after) []).1
        ≡ some (pos (suc (length before)))
  unfolding find_value
  find_value-defined_once label l before after b d a =
      find_value-read_lines label 0 (before ++ l ∷ after) []
      ∙ entry_start label before (l ∷ after) b
      ∙ rw (d, entry) (entry-none_defines label _ after _ a)
