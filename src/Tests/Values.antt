-- ===== src/Tests/Values.antt =====
-- The theorems on values and variables at concrete ones.
use operations_procedure_sup.Common.{
  ◌≡◌, refl, arith, [], ◌∷◌, some, codes, text_eq, length, pos, negsuc, if◌then◌else◌,
}
use operations_procedure_sup.Tools.{Tools, find_value}
use operations_procedure_sup.Tools.Engine.{engine, engine_upper}
use operations_procedure_sup.ErrHandling.{fresh, of_code, no_problem}
use operations_procedure_sup.Value.Convert.{of_text, of_long, to_long}
use operations_procedure_sup.Value.Convert.Laws.{to_long-of_long}
use operations_procedure_sup.Value.Convert.Numerals.{engine-ReadsNumerals}
use operations_procedure_sup.Value.Justify.{left_justify, right_justify, center}
use operations_procedure_sup.Value.Justify.Laws.{length-justify}
use operations_procedure_sup.VarStore
use operations_procedure_sup.VarStore.{VarStore}
use operations_procedure_sup.VarStore.Laws.{get-put}
use operations_procedure_sup.VarStore.Counters.{get-dec-inc}

abbrev t : Tools
t = engine

abbrev one_in_i : VarStore
one_in_i = record { store = (codes "I", of_long (pos 1)) ∷ []; changes = [] }

get-put_example :
    VarStore.get t (codes "I") (VarStore.put t (codes "i") (of_long (pos 7)) one_in_i) ≡ (
      if text_eq (t.to_upper (codes "i")) (t.to_upper (codes "I"))
      then some (of_long (pos 7))
      else VarStore.get t (codes "I") one_in_i)
get-put_example = get-put t (codes "i") (codes "I") (of_long (pos 7)) one_in_i

to_long-of_long_example :
    to_long t (of_long (negsuc 41)) fresh ≡ (negsuc 41, record fresh { code = no_problem })
to_long-of_long_example = to_long-of_long t engine-ReadsNumerals (negsuc 41) fresh (omega arith)

length-justify_example :
    (length (left_justify t (of_text (codes "abc")) (of_long (pos 5)) fresh).0.chars ≡ 5)
    × (length (right_justify t (of_text (codes "abc")) (of_long (pos 5)) fresh).0.chars ≡ 5)
    × (length (center t (of_text (codes "abc")) (of_long (pos 5)) fresh).0.chars ≡ 5)
length-justify_example =
    length-justify t engine-ReadsNumerals (of_text (codes "abc")) 5 fresh (omega arith)

abbrev most_in_i : VarStore
most_in_i = record { store = (codes "I", of_long (pos 2147483647)) ∷ []; changes = [] }

most_in_i_lem : VarStore.get t (t.to_upper (codes "i")) most_in_i ≡ some (of_long (pos 2147483647))
unfolding VarStore.get find_value text_eq engine engine_upper
most_in_i_lem = refl

get-dec-inc_example :
    ((VarStore.inc t (codes "i") most_in_i).0 ≡ of_code no_problem)
    × ((VarStore.dec t (codes "i") (VarStore.inc t (codes "i") most_in_i).1).0 ≡ of_code no_problem)
    × (VarStore.get t
          (t.to_upper (codes "i"))
          (VarStore.dec t (codes "i") (VarStore.inc t (codes "i") most_in_i).1).1
        ≡ some (of_long (pos 2147483647)))
get-dec-inc_example =
    get-dec-inc t engine-ReadsNumerals (codes "i") (pos 2147483647) most_in_i most_in_i_lem
      (omega arith)
