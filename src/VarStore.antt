-- ===== src/VarStore.antt =====
-- ops-enm-parser/src/main/cpp/parse/OZT_VarStore.C: the script variables, under their names in
-- upper case. The names passed to `changed` are kept in order, the latest first.
pub mod Laws
pub mod Counters
use operations_procedure_sup.Common.{
  ℕ, Bool, true, false, not, List, [], ◌∷◌, Option, none, some, Text, codes, if◌then◌else◌, pos,
  length,
}
use operations_procedure_sup.Tools.{
  Tools, Dict, find_value, remove_key, contains_key, insert_key_and_value,
}
use operations_procedure_sup.ErrHandling.{
  OztResult, fresh, of_code, of_info, no_problem, var_undefined, is_ok,
}
use operations_procedure_sup.Value.Convert.{Value, of_long}
use operations_procedure_sup.Value.Arith.{add, sub}

pub record VarStore : Type 0 where
  pub store : Dict Value
  pub changes : List Text

abbrev pub empty_store : VarStore
empty_store = record { store = []; changes = [] }

-- `changed(&name)`
abbrev notify : Text → VarStore → VarStore
notify name vs = record vs { changes = name ∷ vs.changes }

-- `OZT_VarStore::entries`
unfoldable pub entries : VarStore → ℕ
entries vs = length vs.store

-- `OZT_VarStore::clearAll`
unfoldable pub clear_all : VarStore → VarStore
clear_all vs = elim vs.store [ [] ↦ vs | _ ↦ notify [] (record vs { store = [] }) ]

module _ (t : Tools) where
  -- `OZT_VarStore::put`
  unfoldable pub put : Text → Value → VarStore → VarStore
  unfolding contains_key remove_key insert_key_and_value
  put var_name content vs =
      let temp = t.to_upper var_name in
      let cleared = if contains_key temp vs.store then remove_key temp vs.store else vs.store in
      notify temp (record vs { store = insert_key_and_value temp content cleared })

  -- `OZT_VarStore::get`
  unfoldable pub get : Text → VarStore → Option Value
  unfolding find_value
  get var_name vs = find_value (t.to_upper var_name) vs.store

  -- `OZT_VarStore::contains`
  unfoldable pub contains : Text → VarStore → Bool
  unfolding contains_key
  contains var_name vs = contains_key (t.to_upper var_name) vs.store

  -- `OZT_VarStore::flushVar`
  unfoldable pub flush_var : Text → VarStore → Bool × VarStore
  unfolding contains_key remove_key
  flush_var var_name vs =
      let temp = t.to_upper var_name in
      if contains_key temp vs.store
      then (true, notify temp (record vs { store = remove_key temp vs.store }))
      else (false, vs)

  -- The end of `inc` and `dec`: a number is stored, and an error is returned.
  unfoldable pub store_result : Text → Value × OztResult → VarStore → OztResult × VarStore
  unfolding put is_ok
  store_result temp (content, result) vs =
      if not (is_ok result.code) then (result, vs) else (of_code no_problem, put temp content vs)

  -- `OZT_VarStore::inc`
  unfoldable pub inc : Text → VarStore → OztResult × VarStore
  unfolding get store_result
  inc var_name vs =
      let temp = t.to_upper var_name in
      elim (get temp vs) [
        | none ↦ (of_info var_undefined temp, vs)
        | some content ↦ store_result temp (add t content (of_long (pos 1)) fresh) vs
      ]

  -- `OZT_VarStore::dec`
  unfoldable pub dec : Text → VarStore → OztResult × VarStore
  unfolding get store_result
  dec var_name vs =
      let temp = t.to_upper var_name in
      elim (get temp vs) [
        | none ↦ (of_info var_undefined temp, vs)
        | some content ↦ store_result temp (sub t content (of_long (pos 1)) fresh) vs
      ]
