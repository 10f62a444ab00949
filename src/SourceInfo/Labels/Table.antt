-- ===== src/SourceInfo/Labels/Table.antt =====
-- The label table: what entering labels does to it.
use operations_procedure_sup.Common.{
  ℕ, ◌≡◌, arith, Option, none, some, Text, text_eq, text_eq_iff, if◌then◌else◌, ℤ, pos,
}
use operations_procedure_sup.Tools.{Dict, find_value, contains_key, insert_key_and_value}
use operations_procedure_sup.SourceInfo.Labels.{insert_label}

-- The entry of a label behind a line that defines it.
abbrev pub entered : Option ℤ → ℕ → Option ℤ
entered none n = some (pos n)
entered (some v) n = some v

-- A label is entered with its line; a later definition of it changes nothing, since
-- `insertKeyAndValue` does not replace. Other labels keep their entry.
pub find_value-insert_label :
    (label other : Text) (n : ℕ) (tbl : Dict ℤ)
    → find_value other (insert_label label (pos n) tbl)
      ≡ (if text_eq label other then entered (find_value label tbl) n else find_value other tbl)
unfolding insert_label insert_key_and_value contains_key find_value
find_value-insert_label label other n tbl = ground (arith, text_eq_iff label other)
