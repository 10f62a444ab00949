-- ===== src/Misc.antt =====
-- ops-enm-parser/src/main/cpp/parse/OZT_Misc.C: white space at the ends of a line.
use operations_procedure_sup.Common.{
  ℕ, Bool, true, false, [], ◌∷◌, Text, ◌==◌, if◌then◌else◌, is_space,
}

-- `isEmptyLine`; a C text ends at its first zero byte.
unfoldable pub is_empty_line : Text → Bool
unfolding is_space
is_empty_line [] = true
is_empty_line (c ∷ cs) =
    let rest = is_empty_line cs in if c == 0 then true else if is_space c then rest else false

unfoldable pub trim_leading : Text → Text
unfolding is_space
trim_leading [] = []
trim_leading (c ∷ cs) = let rest = trim_leading cs in if is_space c then rest else c ∷ cs

-- A byte in front of what is left of the rest.
unfoldable pub trim_cons : ℕ → Text → Text
unfolding is_space
trim_cons c [] = if is_space c then [] else c ∷ []
trim_cons c (d ∷ ds) = c ∷ d ∷ ds

unfoldable pub trim_trailing : Text → Text
unfolding trim_cons
trim_trailing [] = []
trim_trailing (c ∷ cs) = trim_cons c (trim_trailing cs)

-- `trim`
unfoldable pub trim : Text → Text
unfolding trim_leading trim_trailing
trim s = trim_trailing (trim_leading s)
