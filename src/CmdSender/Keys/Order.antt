-- ===== src/CmdSender/Keys/Order.antt =====
-- The order in which a response holds the strings of `@/w1,...,wn/`.
use operations_procedure_sup.Common.{
  ℕ, suc, ◌+◌, ◌-◌, ◌%◌, ◌≤◌, ◌<◌, Bool, true, false, ◌&&◌, ◌||◌, ◌≡◌, refl, sym, ap, ◌∙◌, ◌⊎◌, inl,
  inr, List, [], ◌∷◌, Option, none, some, Text, text_eq, ◌==◌, leb, if◌then◌else◌, length, get_or,
  drop, length-drop, get_or-drop, arith,
}
use operations_procedure_sup.CmdRspBuf.Search.{
  word_size, c_str, find_text, from_mark, scan_lines, not_accepted,
}
use operations_procedure_sup.CmdRspBuf.Search.Laws.{first_match_facts}
use operations_procedure_sup.CmdRspBuf.{CmdRspBuf, scan_from}
use operations_procedure_sup.CmdSender.{CmdSender}
use operations_procedure_sup.CmdSender.Keys.{scan_keys, m_scan}

-- From line i, and behind the first p bytes of it, the lines hold the keys one behind the other.
abbrev pub AreInOrder : List Text → ℕ → ℕ → List Text → Type 0
AreInOrder [] i p lines = Unit
AreInOrder (k ∷ ks) i p lines =
    (j : ℕ) × (q : ℕ) × (i ≤ j)
    × (j ≡ i → p ≤ q)
    × (j < length lines)
    × (find_text (c_str k) (get_or lines j []) ≡ some q)
    × AreInOrder ks j (suc q) lines

-- A key that `scan` does not treat apart.
abbrev pub ArePlain : List Text → Type 0
ArePlain [] = Unit
ArePlain (k ∷ ks) = (text_eq k not_accepted ≡ false) × ArePlain ks

from_mark_zero : (j : ℕ) → suc j < word_size → from_mark 0 j ≡ suc j
unfolding from_mark
from_mark_zero j h = omega arith

back_to_line : (i : ℕ) → i < word_size → (suc i + word_size - 1) % word_size ≡ i
back_to_line i h = omega arith

goes_on :
    (test : Bool) (k : Text) (rest : Option Text)
    → (if test then some k else rest) ≡ none
    → (test ≡ false) × (rest ≡ none)
goes_on true k rest h = cc
goes_on false k rest h = (refl, h)

behind :
    (i j q last_index last_pos : ℕ)
    → (last_index ≡ suc i) ⊎ (last_pos ≡ 0)
    → (suc j == 0 || leb (suc q) last_pos && suc j == last_index) ≡ false
    → j ≡ i
    → last_pos ≤ q
behind i j q last_index last_pos last test same = ground arith

module _ (b : CmdRspBuf) (start : b.mark ≡ 0) (fits : length b.store < word_size) where
  -- What `scan` says of a line and a position.
  Finds : Text → ℕ → ℕ → ℕ → Type 0
  Finds k i j q =
      (i ≤ j)
      × (j < length b.store)
      × (find_text (c_str k) (get_or b.store j []) ≡ some q)
      × (scan_from k i b ≡ (suc j, suc q))

  found :
      (j q : ℕ)
      → suc j < word_size
      → let r : ℕ × ℕ = (from_mark b.mark j, q + 1) in r ≡ (suc j, suc q)
  found j q fit =
      let e : q + 1 ≡ suc q = omega arith in
      let pair : ℕ → ℕ → ℕ × ℕ = λ m r. (m, r) in
      ap (λ m. pair (from_mark m j) (q + 1)) start
      ∙ ap (λ m. pair m (q + 1)) (from_mark_zero j fit)
      ∙ ap (pair (suc j)) e

  hit_or_miss :
      (k : Text) (i : ℕ)
      → text_eq k not_accepted ≡ false
      → ((j : ℕ) × (q : ℕ) × Finds k i j q) ⊎ (scan_from k i b ≡ (0, 0))
  unfolding Finds scan_from scan_lines
  hit_or_miss k i plain = elim (first_match_facts (c_str k) i (drop i b.store)) [
    | inl (m, q, (lt_m, at_m, first), e) ↦
        let inside : i + m < length b.store = omega (arith, length-drop i b.store, lt_m) in
        let le : i ≤ i + m = omega arith in
        let at = ap (find_text (c_str k)) (sym (get_or-drop i m b.store [])) ∙ at_m in
        let fit : suc (i + m) < word_size = omega arith in
        inl (i + m, q, (le, inside, at, rw (e, plain, scan_lines, scan_from) (found (i + m) q fit)))
    | inr (n, e) ↦ inr (rw (e, scan_lines, scan_from) refl)
  ]

  -- One round of the loop.
  round :
      (k : Text) (ks : List Text) (i last_index last_pos : ℕ) (r : ℕ × ℕ)
      → i < word_size
      → scan_from k i b ≡ r
      → scan_keys (k ∷ ks) (suc i) last_index last_pos b ≡ (
          if r.0 == 0 || leb r.1 last_pos && r.0 == last_index
          then some k
          else scan_keys ks r.0 r.0 r.1 b)
  unfolding scan_keys
  round k ks i last_index last_pos r fit e =
      ap
        (λ (r : ℕ × ℕ).
          if r.0 == 0 || leb r.1 last_pos && r.0 == last_index
          then some k
          else scan_keys ks r.0 r.0 r.1 b)
        (ap (λ n. scan_from k n b) (back_to_line i fit) ∙ e)

  -- A loop that finds no key that fails, from a line on: the index of the last key is that of the
  -- line, or there is no last key.
  scan_keys-AreInOrder :
      (ks : List Text) (i last_index last_pos : ℕ)
      → i < word_size
      → (last_index ≡ suc i) ⊎ (last_pos ≡ 0)
      → ArePlain ks
      → scan_keys ks (suc i) last_index last_pos b ≡ none
      → AreInOrder ks i last_pos b.store
  unfolding Finds
  scan_keys-AreInOrder [] i last_index last_pos fit last plain h = tt
  scan_keys-AreInOrder (k ∷ ks) i last_index last_pos fit last plain h =
      elim (hit_or_miss k i plain.0) [
        | inr miss ↦ let h1 = sym (round k ks i last_index last_pos (0, 0) fit miss) ∙ h in cc
        | inl (j, q, (le, inside, at, e)) ↦
            let small : j < word_size = omega arith in
            let h1 = sym (round k ks i last_index last_pos (suc j, suc q) fit e) ∙ h in
            let (test, more) = goes_on _ k _ h1 in
            let rest = scan_keys-AreInOrder ks j (suc j) (suc q) small (inl refl) plain.1 more in
            (j, q, le, behind i j q last_index last_pos last test, inside, at, rest)
      ]

-- `mScan` that accepts a response of less than 2 ^ 64 lines, which starts at the mark 0: the lines
-- hold all the keys, each of them behind the one before, and the sender forgets the keys. The key
-- NOT ACCEPTED, which `scan` treats apart, is not among them.
pub m_scan-AreInOrder :
    (b : CmdRspBuf) (c : CmdSender)
    → b.mark ≡ 0
    → length b.store < word_size
    → ArePlain c.keys
    → (m_scan b c).0 ≡ none
    → AreInOrder c.keys 0 0 b.store × ((m_scan b c).1.keys ≡ [])
unfolding m_scan
m_scan-AreInOrder b c start fits plain h =
    (scan_keys-AreInOrder b start fits c.keys 0 0 0 (omega arith) (inr refl) plain h, refl)
