-- ===== src/CmdRspBuf/Search/Laws.antt =====
-- `scan` finds the first line behind the mark that holds the key, and `reply` reads it.
use operations_procedure_sup.Common.{
  ℕ, zero, suc, ◌+◌, ◌<◌, ◌≡◌, refl, ap, ◌∙◌, ◌⊎◌, inl, inr, arith, List, [], ◌∷◌, none, some, Text,
  length, get_or, Option-cases,
}
use operations_procedure_sup.CmdRspBuf.Search.{find_text, first_match}

-- The match at place k of the lines, counted from 0.
abbrev pub FirstAt : Text → List Text → ℕ → ℕ → Type 0
FirstAt key lines k p =
    (k < length lines)
    × (find_text key (get_or lines k []) ≡ some p)
    × ((j : ℕ) → j < k → find_text key (get_or lines j []) ≡ none)

abbrev pub NoneFrom : Text → List Text → Type 0
NoneFrom key lines = (j : ℕ) → j < length lines → find_text key (get_or lines j []) ≡ none

pub first_match_facts :
    (key : Text) (i : ℕ) (ls : List Text)
    → ((k : ℕ) × (p : ℕ) × FirstAt key ls k p × (first_match key i ls ≡ some (i + k, p)))
      ⊎ (NoneFrom key ls × (first_match key i ls ≡ none))
unfolding first_match
first_match_facts key i [] = inr (λ j h. absurd (omega arith), refl)
first_match_facts key i (l ∷ ls) = elim (Option-cases (find_text key l)) [
  | inr (p, e) ↦
      let here : i ≡ i + 0 = omega arith in
      inl (
        0,
        p,
        (omega arith, e, λ j h. absurd (omega arith)),
        rw (e, first_match) (ap (λ n. some (n, p)) here),
      )
  | inl e ↦ elim (first_match_facts key (suc i) ls) [
    | inl (k, p, (within, hit, before), r) ↦
        let next : suc i + k ≡ i + suc k = omega arith in
        inl (
          suc k,
          p,
          (omega arith, hit, earlier k e before),
          rw (e, first_match) (r ∙ ap (λ n. some (n, p)) next),
        )
    | inr (all, r) ↦ inr (later e all, rw (e, first_match) r)
  ]
]
  where
    earlier :
        (k : ℕ)
        → find_text key l ≡ none
        → ((j : ℕ) → j < k → find_text key (get_or ls j []) ≡ none)
        → (j : ℕ) → j < suc k
        → find_text key (get_or (l ∷ ls) j []) ≡ none
    earlier k e before zero h = e
    earlier k e before (suc j) h = before j (omega arith)

    later :
        find_text key l ≡ none
        → ((j : ℕ) → j < length ls → find_text key (get_or ls j []) ≡ none)
        → (j : ℕ) → j < suc (length ls)
        → find_text key (get_or (l ∷ ls) j []) ≡ none
    later e all zero h = e
    later e all (suc j) h = all j (omega arith)
