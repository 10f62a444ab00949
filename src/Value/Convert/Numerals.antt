-- ===== src/Value/Convert/Numerals.antt =====
-- The concrete matcher of `Tools/Engine` finds `^[+-]?[0-9]+$` in the numerals and nowhere else.
use operations_procedure_sup.Common.{
  ℕ, Bool, true, false, ◌||◌, ◌≡◌, refl, ◌∙◌, inl, inr, arith, [], ◌∷◌, Option, none, some, Text,
  is_digit, Bool-cases, ◌==◌,
}
use operations_procedure_sup.Tools.{CharClass, found}
use operations_procedure_sup.Tools.Engine.{
  engine, engine_index, in_ranges, in_class, one_more, or_else, match_one, match_star, match_pieces,
}
use operations_procedure_sup.Value.Digits.{all_digits, some_digits, is_numeral}
use operations_procedure_sup.Value.Convert.{number_pattern}
use operations_procedure_sup.Value.Convert.Laws.{ReadsNumerals}

abbrev digit_class : CharClass
digit_class = record { ranges = (b'0', b'9') ∷ []; negated = false }

abbrev matches : Option ℕ → Bool
matches none = false
matches (some _) = true

abbrev ends : Text → Option ℕ
ends = match_pieces [] true

matches-or_else : (a b : Option ℕ) → matches (or_else a b) ≡ (matches a || matches b)
unfolding or_else
matches-or_else none b = refl
matches-or_else (some n) b = refl

matches-one_more : (a : Option ℕ) → matches (one_more a) ≡ matches a
unfolding one_more
matches-one_more none = refl
matches-one_more (some n) = refl

in_class-digit : (c : ℕ) → in_class digit_class c ≡ is_digit c
unfolding in_class in_ranges is_digit
in_class-digit c = ground arith

star_digits : (s : Text) → matches (match_star digit_class ends s) ≡ all_digits s
unfolding match_star match_pieces all_digits
star_digits [] = refl
star_digits (c ∷ cs) = elim (Bool-cases (is_digit c)) [
  | inl d ↦
      rw
        (
          in_class-digit c,
          d,
          matches-or_else (one_more (match_star digit_class ends cs)) none,
          matches-one_more (match_star digit_class ends cs),
        )
        (ground (arith, star_digits cs))
  | inr d ↦ rw (in_class-digit c, d) (unfold or_else in refl)
]

plus_digits :
    (s : Text) → matches (match_one digit_class (match_star digit_class ends) s) ≡ some_digits s
unfolding match_one some_digits
plus_digits [] = refl
plus_digits (c ∷ cs) = elim (Bool-cases (is_digit c)) [
  | inl d ↦
      rw (in_class-digit c, d, matches-one_more (match_star digit_class ends cs)) (star_digits cs)
  | inr d ↦ rw (in_class-digit c, d) refl
]

found-matches :
    (o : Option ℕ)
    → found (elim o as (λ x. Option (ℕ × ℕ)) [ none ↦ none | some n ↦ some (0, n) ]) ≡ matches o
found-matches none = refl
found-matches (some n) = refl

abbrev sign_class : CharClass
sign_class = record { ranges = (b'+', b'+') ∷ (b'-', b'-') ∷ []; negated = false }

in_class-sign : (c : ℕ) → in_class sign_class c ≡ (c == b'+' || c == b'-')
unfolding in_class in_ranges
in_class-sign c = ground arith

not_sign : (c : ℕ) → (c == b'+' || c == b'-') ≡ true → is_digit c ≡ false
unfolding is_digit
not_sign c h = ground arith

numeral_matches : (s : Text) → matches (match_pieces number_pattern.pieces true s) ≡ is_numeral s
unfolding match_pieces is_numeral match_one
numeral_matches [] = unfold or_else in refl
numeral_matches (c ∷ cs) = elim (Bool-cases (c == b'+' || c == b'-')) [
  | inl sign ↦
      rw (in_class-sign c, sign, in_class-digit c, not_sign c sign)
        (matches-or_else (one_more (match_one digit_class (match_star digit_class ends) cs)) none
          ∙ one_sign)
  | inr digit ↦ rw (in_class-sign c, digit) (unfold or_else in plus_digits (c ∷ cs))
]
  where
    one_sign :
        (matches (one_more (match_one digit_class (match_star digit_class ends) cs)) || false)
        ≡ some_digits cs
    one_sign =
        rw (matches-one_more (match_one digit_class (match_star digit_class ends) cs))
          (ground (arith, plus_digits cs))

-- The concrete tools satisfy the hypothesis `ReadsNumerals`.
pub engine-ReadsNumerals : ReadsNumerals engine
unfolding engine engine_index
engine-ReadsNumerals s =
    found-matches (match_pieces number_pattern.pieces true s) ∙ numeral_matches s
