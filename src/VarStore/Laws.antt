-- ===== src/VarStore/Laws.antt =====
-- The store as a map from names in upper case.
use operations_procedure_sup.Common.{
  Bool, true, false, ◌≡◌, refl, ◌∙◌, arith, Option, none, some, Text, text_eq, text_eq_iff,
  text_eq_refl, if◌then◌else◌, inl, inr, Bool-cases,
}
use operations_procedure_sup.Tools.{
  Tools, Dict, find_value, remove_key, contains_key, insert_key_and_value, find_value-remove_key,
}
use operations_procedure_sup.Value.Convert.{Value}
use operations_procedure_sup.VarStore.{VarStore, put, get, flush_var}

find_value-insert_fresh :
    (k j : Text) (v : Value) (d : Dict Value)
    → find_value k d ≡ none
    → find_value j (insert_key_and_value k v d) ≡ (if text_eq k j then some v else find_value j d)
unfolding insert_key_and_value contains_key find_value
find_value-insert_fresh k j v d h = ground arith

-- Clearing a name changes nothing for the other names.
cleared-find_value :
    (k j : Text) (d : Dict Value) (o : Option Value)
    → (if text_eq k j then o else find_value j (if contains_key k d then remove_key k d else d))
      ≡ (if text_eq k j then o else find_value j d)
cleared-find_value k j d o = elim (Bool-cases (contains_key k d)) [
  | inl h ↦ rw (h, find_value-remove_key k j d) (collapse (text_eq k j))
  | inr h ↦ rw h
]
  where
    collapse :
        (b : Bool)
        → (if b then o else if b then none else find_value j d) ≡ (if b then o else find_value j d)
    collapse true = refl
    collapse false = refl

cleared-fresh :
    (k : Text) (d : Dict Value)
    → find_value k (if contains_key k d then remove_key k d else d) ≡ none
unfolding contains_key
cleared-fresh k d = ground (arith, find_value-remove_key k k d, text_eq_refl k)

module _ (t : Tools) where
  -- After `put`, `get` answers the new value for every spelling of the name, and what it answered
  -- before for every other name.
  pub get-put :
      (k j : Text) (v : Value) (vs : VarStore)
      → get t j (put t k v vs)
        ≡ (if text_eq (t.to_upper k) (t.to_upper j) then some v else get t j vs)
  unfolding get put
  get-put k j v vs =
      let temp = t.to_upper k in
      let cleared = if contains_key temp vs.store then remove_key temp vs.store else vs.store in
      find_value-insert_fresh temp (t.to_upper j) v cleared (cleared-fresh temp vs.store)
      ∙ cleared-find_value temp (t.to_upper j) vs.store (some v)

  -- `flushVar` removes the variable under all spellings, and leaves the others.
  pub get-flush_var :
      (k j : Text) (vs : VarStore)
      → get t j (flush_var t k vs).1
        ≡ (if text_eq (t.to_upper k) (t.to_upper j) then none else get t j vs)
  unfolding get flush_var contains_key
  get-flush_var k j vs = ground (
    arith,
    find_value-remove_key (t.to_upper k) (t.to_upper j) vs.store,
    text_eq_iff (t.to_upper k) (t.to_upper j),
  )
