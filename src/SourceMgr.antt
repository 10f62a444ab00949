-- ===== src/SourceMgr.antt =====
-- ops-enm-parser/src/main/cpp/parse/OZT_SourceMgr: the current source, the stack of the sources
-- that include it, and the flow of control between them.
pub mod Files
pub mod Advance
pub mod Progress
use operations_procedure_sup.Common.{Bool, true, false, List, [], Option, none, some, Text, ℤ}
use operations_procedure_sup.Tools.{Tools}
use operations_procedure_sup.ErrHandling.{ErrHandler}
use operations_procedure_sup.VarStore.{VarStore}
use operations_procedure_sup.SourceInfo.{SourceInfo}
use operations_procedure_sup.SourceInfo.Load.{FileRead}

-- What the manager asks of the system: the class library, `ozt_normalisePath` (which reads the
-- working directory and the home directories) and the file system.
pub record System : Type 0 where
  pub tools : Tools
  pub normalise_path : Text → Text
  pub read_file : Text → FileRead

-- The sources, the variables and the error handler. The last element of the vector `sourceStack`
-- stands first.
pub record SourceMgr : Type 0 where
  pub curr_source : Option SourceInfo
  pub source_stack : List SourceInfo
  pub varstore : VarStore
  pub err_handler : ErrHandler

-- A manager with a current source, as after `assert(isActive())`.
pub record Active : Type 0 where
  pub curr : SourceInfo
  pub stack : List SourceInfo
  pub vars : VarStore
  pub handler : ErrHandler

-- `isActive`
unfoldable pub is_active : SourceMgr → Bool
is_active m = elim m.curr_source [ none ↦ false | some _ ↦ true ]

unfoldable pub to_active : SourceMgr → Option Active
to_active m = elim m.curr_source [
  | none ↦ none
  | some s ↦
      some (record { curr = s; stack = m.source_stack; vars = m.varstore; handler = m.err_handler })
]

unfoldable pub of_active : Active → SourceMgr
of_active a = record {
  curr_source = some a.curr;
  source_stack = a.stack;
  varstore = a.vars;
  err_handler = a.handler;
}
