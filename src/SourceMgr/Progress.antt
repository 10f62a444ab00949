-- ===== src/SourceMgr/Progress.antt =====
-- The progress that a script reports: `setTotalCount`, `setProgress` and `stepProgress`. What is
-- sent to the listener is kept, the latest first.
use operations_procedure_sup.Common.{not, List, ◌∷◌, if◌then◌else◌, ℤ, ◌+ℤ◌}
use operations_procedure_sup.Tools.{Tools}
use operations_procedure_sup.ErrHandling.{
  OztResult, ErrHandler, fresh, of_code, invalid_value, is_ok, filtered,
}
use operations_procedure_sup.Value.Words.{wrap64}
use operations_procedure_sup.Value.Convert.{Value, to_long}

pub record Progress : Type 0 where
  pub total_count : ℤ
  pub progress : ℤ
  pub sent_totals : List ℤ
  pub sent_progress : List ℤ

module _ (t : Tools) where
  -- `setTotalCount`
  unfoldable pub set_total_count : Value → Progress → ErrHandler → Progress × OztResult × ErrHandler
  unfolding is_ok filtered
  set_total_count total p h =
      let (cnt, result) = to_long t total fresh in
      if not (is_ok result.code)
      then (let (r, h1) = filtered (of_code invalid_value) h in (p, r, h1))
      else (record p { total_count = cnt; sent_totals = cnt ∷ p.sent_totals }, result, h)

  -- `setProgress`
  unfoldable pub set_progress : Value → Progress → ErrHandler → Progress × OztResult × ErrHandler
  unfolding is_ok filtered
  set_progress amount p h =
      let (prg, result) = to_long t amount fresh in
      if not (is_ok result.code)
      then (let (r, h1) = filtered (of_code invalid_value) h in (p, r, h1))
      else (record p { progress = prg; sent_progress = prg ∷ p.sent_progress }, result, h)

  -- `stepProgress`
  unfoldable pub step_progress : Value → Progress → ErrHandler → Progress × OztResult × ErrHandler
  unfolding is_ok filtered wrap64 ◌+ℤ◌
  step_progress interval p h =
      let (prg, result) = to_long t interval fresh in
      if not (is_ok result.code)
      then (let (r, h1) = filtered (of_code invalid_value) h in (p, r, h1))
      else let total = wrap64 (p.progress +ℤ prg) in
        (record p { progress = total; sent_progress = total ∷ p.sent_progress }, result, h)
