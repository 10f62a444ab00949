-- ===== src/Tools/Engine.antt =====
-- A concrete matcher for the patterns of `Tools`, by backtracking, and the tools built on it: the
-- instance at which the witnesses and the tests run the model.
use Prim.Native.Nat.{compare, Ordering, ◌-◌}
use operations_procedure_sup.Common.{
  ℕ, suc, Bool, true, false, not, ◌&&◌, ◌||◌, List, [], ◌∷◌, Option, none, some, Text, leb, ◌==◌,
  ◌++◌, if◌then◌else◌, drop,
}
use operations_procedure_sup.Tools.{
  CharClass, Piece, one, optional, star, plus, dollar, Pattern, Tools,
}

unfoldable pub in_ranges : List (ℕ × ℕ) → ℕ → Bool
in_ranges [] c = false
in_ranges ((lo, hi) ∷ rs) c = leb lo c && leb c hi || in_ranges rs c

unfoldable pub in_class : CharClass → ℕ → Bool
unfolding in_ranges
in_class cl c = if cl.negated then not (in_ranges cl.ranges c) else in_ranges cl.ranges c

-- The length of a match is one more.
unfoldable pub one_more : Option ℕ → Option ℕ
one_more none = none
one_more (some n) = some (suc n)

unfoldable pub or_else : Option ℕ → Option ℕ → Option ℕ
or_else none o = o
or_else (some n) o = some n

-- One byte of the class, and then the rest.
unfoldable pub match_one : CharClass → (Text → Option ℕ) → Text → Option ℕ
unfolding in_class one_more
match_one cl next [] = none
match_one cl next (c ∷ cs) = if in_class cl c then one_more (next cs) else none

-- As many bytes of the class as let the rest match.
unfoldable pub match_star : CharClass → (Text → Option ℕ) → Text → Option ℕ
unfolding in_class one_more or_else
match_star cl next [] = next []
match_star cl next (c ∷ cs) =
    or_else (if in_class cl c then one_more (match_star cl next cs) else none) (next (c ∷ cs))

unfoldable pub match_pieces : List Piece → Bool → Text → Option ℕ
unfolding match_one match_star or_else
match_pieces [] false t = some 0
match_pieces [] true [] = some 0
match_pieces [] true (c ∷ cs) = none
match_pieces (dollar ∷ ps) e [] = match_pieces ps e []
match_pieces (dollar ∷ ps) e (c ∷ cs) = none
match_pieces (one cl ∷ ps) e t = match_one cl (match_pieces ps e) t
match_pieces (optional cl ∷ ps) e t =
    or_else (match_one cl (match_pieces ps e) t) (match_pieces ps e t)
match_pieces (star cl ∷ ps) e t = match_star cl (match_pieces ps e) t
match_pieces (plus cl ∷ ps) e t = match_one cl (match_star cl (match_pieces ps e)) t

-- The first position at which the pieces match.
unfoldable pub scan_from : List Piece → Bool → ℕ → Text → Option (ℕ × ℕ)
unfolding match_pieces
scan_from ps e i [] = elim (match_pieces ps e []) [ none ↦ none | some n ↦ some (i, n) ]
scan_from ps e i (c ∷ cs) = elim (match_pieces ps e (c ∷ cs)) [
  | none ↦ scan_from ps e (suc i) cs
  | some n ↦ some (i, n)
]

unfoldable pub engine_index : Pattern → Text → ℕ → Option (ℕ × ℕ)
unfolding scan_from match_pieces
engine_index p t start =
    let t' = drop start t in
    if p.from_start
    then elim (match_pieces p.pieces p.to_end t') [ none ↦ none | some n ↦ some (start, n) ]
    else scan_from p.pieces p.to_end start t'

upper_byte : ℕ → ℕ
upper_byte c = if leb b'a' c && leb c b'z' then c - 32 else c

unfoldable pub engine_upper : Text → Text
unfolding upper_byte
engine_upper [] = []
engine_upper (c ∷ cs) = upper_byte c ∷ engine_upper cs

-- Byte by byte, a prefix first.
unfoldable pub engine_collate : Text → Text → Ordering
engine_collate [] [] = Ordering.eq
engine_collate [] (y ∷ ys) = Ordering.lt
engine_collate (x ∷ xs) [] = Ordering.gt
engine_collate (x ∷ xs) (y ∷ ys) =
    let rest = engine_collate xs ys in
    elim (compare x y) [
      | Ordering.lt ↦ Ordering.lt
      | Ordering.eq ↦ rest
      | Ordering.gt ↦ Ordering.gt
    ]

-- The texts between spaces, tabs and newlines; the list holds no empty text.
split_tokens : Text → Text → List Text
split_tokens [] [] = []
split_tokens (w ∷ ws) [] = (w ∷ ws) ∷ []
split_tokens [] (c ∷ cs) =
    split_tokens (if c == b' ' || c == b'\t' || c == b'\n' then [] else c ∷ []) cs
split_tokens (w ∷ ws) (c ∷ cs) =
    let blank = c == b' ' || c == b'\t' || c == b'\n' in
    let rest = split_tokens (if blank then [] else (w ∷ ws) ++ c ∷ []) cs in
    if blank then (w ∷ ws) ∷ rest else rest

-- The tools over this matcher.
unfoldable pub engine : Tools
unfolding engine_index engine_upper engine_collate split_tokens
engine = record {
  index = engine_index;
  to_upper = engine_upper;
  tokens = split_tokens [];
  collate = engine_collate;
}
