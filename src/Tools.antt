-- ===== src/Tools.antt =====
-- What the program uses of the Tools.h++ classes `RWTRegex`, `RWCString` and
-- `RWTValHashMap`, which are not part of the repository: a parameter of the model.
-- Ordered vectors are lists, and a dictionary is an association list.
pub mod Engine
use Prim.Native.Nat.{Ordering}
use operations_procedure_sup.Common.{
  ℕ, Bool, true, false, not, ◌&&◌, List, [], ◌∷◌, Option, none, some, Text, leb, text_eq,
  if◌then◌else◌, ◌≡◌, ◌⊎◌, ◌||◌, ◌==◌, is_digit, ◌++◌, refl, arith, text_eq_iff, text_eq_refl,
}

-- A bracket expression: ranges of bytes, or the bytes outside of them.
pub record CharClass : Type 0 where
  pub ranges : List (ℕ × ℕ)
  pub negated : Bool

pub data Piece : Type 0 where
  one : CharClass → Piece
  optional : CharClass → Piece
  star : CharClass → Piece
  plus : CharClass → Piece
  -- A `$` that is not the last byte of the expression.
  dollar : Piece

-- A regular expression as the program writes them: a row of pieces between optional anchors.
pub record Pattern : Type 0 where
  pub from_start : Bool
  pub pieces : List Piece
  pub to_end : Bool

pub record Tools : Type 0 where
  -- `RWTRegex::index(s, &len, start)`: the position and the length of the first match; `none` is
  -- `RW_NPOS`. A `^` stands for `start`.
  pub index : Pattern → Text → ℕ → Option (ℕ × ℕ)
  -- `RWCString::toUpper`
  pub to_upper : Text → Text
  -- The tokens of `RWCTokenizer`, in order.
  pub tokens : Text → List Text
  -- The order of `RWCString`.
  pub collate : Text → Text → Ordering

abbrev pub found : Option (ℕ × ℕ) → Bool
found none = false
found (some _) = true

-- `RWTValHashMap<RWCString, V>`.
abbrev pub Dict : Type 0 → Type 0
Dict V = List (Text × V)

module _ {V : Type 0} where
  -- `findValue`
  unfoldable pub find_value : Text → Dict V → Option V
  find_value k [] = none
  find_value k ((j, v) ∷ d) = if text_eq j k then some v else find_value k d

  -- `remove(key)`: the dictionary without the key.
  unfoldable pub remove_key : Text → Dict V → Dict V
  remove_key k [] = []
  remove_key k ((j, v) ∷ d) =
      let rest = remove_key k d in if text_eq j k then rest else (j, v) ∷ rest

  -- `contains`
  unfoldable pub contains_key : Text → Dict V → Bool
  unfolding find_value
  contains_key k d = elim (find_value k d) [ none ↦ false | some _ ↦ true ]

  -- `insertKeyAndValue`, which leaves the value of a key that is there.
  unfoldable pub insert_key_and_value : Text → V → Dict V → Dict V
  unfolding contains_key
  insert_key_and_value k v d = if contains_key k d then d else (k, v) ∷ d

  pub find_value-remove_key :
      (k j : Text) (d : Dict V)
      → find_value j (remove_key k d) ≡ (if text_eq k j then none else find_value j d)
  unfolding find_value remove_key
  find_value-remove_key k j [] = ground arith
  find_value-remove_key k j ((i, v) ∷ d) =
      ground (arith, find_value-remove_key k j d, text_eq_iff i k, text_eq_iff i j, text_eq_iff k j)
