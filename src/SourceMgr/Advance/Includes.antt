-- ===== src/SourceMgr/Advance/Includes.antt =====
-- The sources that @INCLUDE leaves loaded: no two of them are of one file.
use std.Path.{subst}
use operations_procedure_sup.Common.{
  ◌≡◌, ◌≢◌, sym, ◌∙◌, inl, inr, Bool-cases, Option-cases, List, [], ◌∷◌, none, Text, text_eq,
  text_eq_iff,
}
use operations_procedure_sup.ErrHandling.{is_eof}
use operations_procedure_sup.SourceInfo.{SourceInfo}
use operations_procedure_sup.SourceMgr.{System, Active, of_active}
use operations_procedure_sup.SourceMgr.Files.{
  find_in_stack, all_sources, find_by_filename, create_source,
}
use operations_procedure_sup.SourceMgr.Files.Laws.{create_source-not_loaded}
use operations_procedure_sup.SourceMgr.Advance.{Round, returns, continues, include_file}

-- No source has this name.
abbrev pub IsUnused : Text → List SourceInfo → Type 0
IsUnused name [] = Unit
IsUnused name (s ∷ ss) = (s.filename ≢ name) × IsUnused name ss

-- No two sources have one name.
abbrev pub AreDistinct : List SourceInfo → Type 0
AreDistinct [] = Unit
AreDistinct (s ∷ ss) = IsUnused s.filename ss × AreDistinct ss

-- The sources that are loaded behind a round.
abbrev pub loaded_behind : Round → List SourceInfo
loaded_behind (returns a r) = a.curr ∷ a.stack
loaded_behind (continues a flow) = a.curr ∷ a.stack

find_in_stack-IsUnused :
    (name : Text) (ss : List SourceInfo) → find_in_stack name ss ≡ none → IsUnused name ss
unfolding find_in_stack
find_in_stack-IsUnused name [] h = tt
find_in_stack-IsUnused name (s ∷ ss) h = elim (Bool-cases (text_eq s.filename name)) [
  | inl same ↦ cc (rw same at h)
  | inr other ↦ (
    (λ e. cc (sym other ∙ (text_eq_iff s.filename name).1 e)),
    find_in_stack-IsUnused name ss (rw other at h),
  )
]

module _ (sys : System) where
  -- @INCLUDE of any file keeps the names of the loaded sources apart: where no two of them, the
  -- current source and those that include it, have one name, no two have it behind the round, so that
  -- a file is never loaded above itself.
  pub include_file-AreDistinct :
      (file_name : Text) (a : Active)
      → AreDistinct (a.curr ∷ a.stack)
      → AreDistinct (loaded_behind (include_file sys file_name a))
  unfolding include_file is_eof find_by_filename all_sources
  include_file-AreDistinct file_name a apart =
      elim (Option-cases (create_source sys file_name (of_active a)).0) [
        | inl e ↦
            let result = (create_source sys file_name (of_active a)).1 in
            elim (Bool-cases (is_eof result.code)) [
              | inl f ↦ rw (e, f, include_file) apart
              | inr f ↦ elim (Bool-cases a.handler.checking) [
                | inl c ↦ rw (e, f, c, include_file) apart
                | inr c ↦ rw (e, f, c, include_file) apart
              ]
            ]
        | inr (s, e) ↦
            let (name, unused) = create_source-not_loaded sys file_name (of_active a) s e in
            let new =
              find_in_stack-IsUnused (sys.normalise_path file_name) (a.curr ∷ a.stack) unused in
            rw (e, include_file) (subst (λ n. IsUnused n (a.curr ∷ a.stack)) (sym name) new, apart)
      ]
