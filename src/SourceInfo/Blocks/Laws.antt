-- ===== src/SourceInfo/Blocks/Laws.antt =====
-- The search for @ENDIF over bodies whose blocks are closed.
use operations_procedure_sup.Common.{
  ℕ, suc, ◌+◌, ◌-◌, true, false, ◌≡◌, refl, ap, ◌∙◌, arith, List, [], ◌∷◌, ◌++◌, some, Text, ◌==◌,
  length, drop, length-append,
}
use operations_procedure_sup.Tools.{Tools}
use operations_procedure_sup.SourceInfo.Blocks.{
  ends_with_then, is_endif, count_then, find_endif_from, find_endif_statement,
}

-- The kinds of lines that the search tells apart.
abbrev pub IsPlain : Tools → Text → Type 0
IsPlain t l = (ends_with_then t l ≡ false) × (is_endif t l ≡ false)

abbrev pub Opens : Tools → Text → Type 0
Opens t l = (ends_with_then t l ≡ true) × (is_endif t l ≡ false)

abbrev pub Closes : Tools → Text → Type 0
Closes t l = (ends_with_then t l ≡ false) × (is_endif t l ≡ true)

-- The lines between an @IF and its @ENDIF: each @IF among them has its @ENDIF.
pub data Body (t : Tools) : List Text → Type 0 where
  done : Body t []
  plain : (l : Text) (ls : List Text) → IsPlain t l → Body t ls → Body t (l ∷ ls)
  block :
      (l e : Text) (ls rest : List Text)
      → Opens t l
      → Body t ls
      → Closes t e
      → Body t rest
      → Body t (l ∷ (ls ++ (e ∷ rest)))

append_assoc : (a b c : List Text) → (a ++ b) ++ c ≡ a ++ (b ++ c)
append_assoc [] b c = refl
append_assoc (x ∷ a) b c = ap (λ z. x ∷ z) (append_assoc a b c)

not_one : (k : ℕ) → (suc (suc k) == 1) ≡ false
not_one k = ground arith

one_less : (k : ℕ) → suc (suc k) - 1 ≡ suc k
one_less k = omega arith

module _ (t : Tools) where
  -- The steps of the loop, by the kind of the line.
  step-IsPlain :
      (l : Text) (ls : List Text) (n k : ℕ)
      → IsPlain t l
      → find_endif_from t (l ∷ ls) n k ≡ find_endif_from t ls (suc n) k
  unfolding find_endif_from count_then
  step-IsPlain l ls n k (h, e) = rw (e, h, find_endif_from) refl

  step-Opens :
      (l : Text) (ls : List Text) (n k : ℕ)
      → Opens t l
      → find_endif_from t (l ∷ ls) n k ≡ find_endif_from t ls (suc n) (suc k)
  unfolding find_endif_from count_then
  step-Opens l ls n k (h, e) = rw (e, h, find_endif_from) refl

  step-Closes :
      (l : Text) (ls : List Text) (n k : ℕ)
      → Closes t l
      → find_endif_from t (l ∷ ls) n (suc (suc k)) ≡ find_endif_from t ls (suc n) (suc k)
  unfolding find_endif_from count_then
  step-Closes l ls n k (h, e) =
      rw (e, h, not_one k, find_endif_from) (ap (λ j. find_endif_from t ls (suc n) j) (one_less k))

  -- The search passes over a body.
  pub find_endif-Body :
      (b rest : List Text) (n k : ℕ)
      → Body t b
      → find_endif_from t (b ++ rest) n (suc k) ≡ find_endif_from t rest (n + length b) (suc k)
  find_endif-Body _ rest n k done =
      let e : n ≡ n + 0 = omega arith in ap (λ j. find_endif_from t rest j (suc k)) e
  find_endif-Body _ rest n k (plain l ls p b) =
      let e : suc n + length ls ≡ n + suc (length ls) = omega arith in
      step-IsPlain l (ls ++ rest) n (suc k) p
      ∙ find_endif-Body ls rest (suc n) k b
      ∙ ap (λ j. find_endif_from t rest j (suc k)) e
  find_endif-Body _ rest n k (block l c ls more o b cl b') =
      let e : suc (suc n + length ls) + length more ≡ n + suc (length (ls ++ (c ∷ more))) =
        omega (arith, length-append ls (c ∷ more)) in
      step-Opens l ((ls ++ (c ∷ more)) ++ rest) n (suc k) o
      ∙ ap (λ z. find_endif_from t z (suc n) (suc (suc k))) (append_assoc ls (c ∷ more) rest)
      ∙ find_endif-Body ls (c ∷ (more ++ rest)) (suc n) (suc k) b
      ∙ step-Closes c (more ++ rest) (suc n + length ls) k cl
      ∙ find_endif-Body more rest (suc (suc n + length ls)) k b'
      ∙ ap (λ j. find_endif_from t rest j (suc k)) e

  -- If the lines behind an @IF are a body whose blocks are closed and then an @ENDIF, the search
  -- from the line behind @IF finds that @ENDIF.
  pub find_endif_statement-Body :
      (lines b after : List Text) (e : Text) (start : ℕ)
      → drop start lines ≡ b ++ (e ∷ after)
      → Body t b
      → Closes t e
      → find_endif_statement t lines start ≡ some (start + length b)
  unfolding find_endif_statement count_then
  find_endif_statement-Body lines b after e start d body (h, c) =
      ap (λ ls. find_endif_from t ls start 1) d
      ∙ find_endif-Body b (e ∷ after) start 0 body
      ∙ rw (c, h, find_endif_from) refl
