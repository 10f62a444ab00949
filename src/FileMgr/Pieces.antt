-- ===== src/FileMgr/Pieces.antt =====
-- The pieces of a line between its line ends.
use operations_procedure_sup.Common.{
  ℕ, suc, ◌+◌, ◌<◌, Bool, false, ◌≡◌, refl, ap, ◌∙◌, ◌⊎◌, inl, inr, arith, List, [], ◌∷◌, ◌++◌, map,
  Option, none, some, Text, if◌then◌else◌, length, take, drop, leb, ◌&&◌, Bool-cases,
}
use operations_procedure_sup.Tools.{Tools}
use operations_procedure_sup.ErrHandling.{OztResult, of_code, no_problem}
use operations_procedure_sup.FileMgr.{is_null, line_ends}

-- A newline, a vertical tab or a form feed.
abbrev pub is_end : ℕ → Bool
is_end c = leb 10 c && leb c 12

-- The first line end of a text, as `index` answers it.
abbrev pub first_end : ℕ → Text → Option (ℕ × ℕ)
first_end i [] = none
first_end i (c ∷ cs) = if is_end c then some (i, 1) else first_end (suc i) cs

-- The expression is found at the first line end and nowhere else.
abbrev pub FindsLineEnds : Tools → Type 0
FindsLineEnds t = (s : Text) → t.index line_ends s 0 ≡ first_end 0 s

-- A byte in front of the first piece.
abbrev pub on_first : ℕ → List Text → List Text
on_first c [] = (c ∷ []) ∷ []
on_first c (p ∷ ps) = (c ∷ p) ∷ ps

-- The pieces of a line between the line ends in it: always one at least.
abbrev pub pieces : Text → List Text
pieces [] = [] ∷ []
pieces (c ∷ cs) = if is_end c then [] ∷ pieces cs else on_first c (pieces cs)

-- The pieces of all lines.
abbrev pub all_pieces : List Text → List Text
all_pieces [] = []
all_pieces (l ∷ ls) = pieces l ++ all_pieces ls

-- A text with a newline behind it: its first piece, and the text behind, if there is any.
abbrev pub First : Text → ℕ → Type 0
First s i =
    (k : ℕ) × (first_end i (s ++ 10 ∷ []) ≡ some (i + k, 1))
    × (((take k (s ++ 10 ∷ []) ≡ s) × (drop (suc k) (s ++ 10 ∷ []) ≡ []) × (pieces s ≡ s ∷ []))
        ⊎ ((s1 : Text) × (drop (suc k) (s ++ 10 ∷ []) ≡ s1 ++ 10 ∷ [])
            × (pieces s ≡ take k (s ++ 10 ∷ []) ∷ pieces s1)
            × (length s1 < length s)))

abbrev found_at : ℕ → Option (ℕ × ℕ)
found_at i = some (i, 1)

pub at_place : (i j : ℕ) → i ≡ j → found_at i ≡ found_at j
at_place i j e = ap found_at e

pub First-piece : (s : Text) (i : ℕ) → First s i
First-piece [] i = (0, at_place i (i + 0) (omega arith), inl (refl, refl, refl))
First-piece (c ∷ cs) i = elim (Bool-cases (is_end c)) [
  | inl e ↦
      (0, rw e (at_place i (i + 0) (omega arith)), inr (cs, refl, rw (pieces, e) refl, omega arith))
  | inr e ↦
      let (k, found, more) = First-piece cs (suc i) in
      (
        suc k,
        rw e (found ∙ at_place (suc i + k) (i + suc k) (omega arith)),
        elim more [
          | inl (all, none_behind, only) ↦
              inl (ap (λ r. c ∷ r) all, none_behind, rw (pieces, e, only) refl)
          | inr (s1, behind, split, shorter) ↦
              inr (s1, behind, rw (pieces, e, split) refl, omega arith)
        ],
      )
]

pub pieces_some : (s : Text) → 0 < length (pieces s)
pieces_some [] = omega arith
pieces_some (c ∷ cs) = elim (Bool-cases (is_end c)) [
  | inl e ↦ rw (pieces, e) (omega arith)
  | inr e ↦ rw (pieces, e) (some_first c (pieces cs))
]
  where
    some_first : (c : ℕ) (ps : List Text) → 0 < length (on_first c ps)
    some_first c [] = omega arith
    some_first c (p ∷ ps) = omega arith

-- A piece that was read without a problem.
abbrev pub fine : Text → Text × OztResult
fine p = (p, of_code no_problem)

pub map-append : (ps qs : List Text) → map fine (ps ++ qs) ≡ map fine ps ++ map fine qs
map-append [] qs = refl
map-append (p ∷ ps) qs = ap (λ r. fine p ∷ r) (map-append ps qs)

pub not_null : (s : Text) → is_null (s ++ 10 ∷ []) ≡ false
not_null [] = refl
not_null (c ∷ cs) = refl
