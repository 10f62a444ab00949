-- ===== src/SourceInfo/Loops/Counting.antt =====
-- How often the body of a loop runs. A run is a row of @NEXT commands; between two of them the body
-- does anything that keeps the lines, the frames and the loop's variable.
use operations_procedure_sup.Common.{
  ℕ, zero, suc, ◌+◌, ◌<◌, ◌≤◌, true, false, ◌≡◌, refl, ap, sym, ◌∙◌, inl, inr, arith, some, List,
  Text, text_eq_refl, if◌then◌else◌, length, ℤ, pos, negsuc, ltb_ℤ, ◌+ℤ◌, +ℤ-pos, Bool-cases, ◌≤ℤ◌,
}
use operations_procedure_sup.Tools.{Tools}
use operations_procedure_sup.ErrHandling.{OztResult, of_code, no_problem}
use operations_procedure_sup.Value.Words.{IsInt, IsLong, wrap32, wrap32_id, wrap32-IsInt}
use operations_procedure_sup.Value.Convert.{of_long}
use operations_procedure_sup.Value.Convert.Laws.{ReadsNumerals}
use operations_procedure_sup.VarStore
use operations_procedure_sup.VarStore.{VarStore}
use operations_procedure_sup.VarStore.Laws.{get-put}
use operations_procedure_sup.SourceInfo.{SourceInfo, at, line_at, Frame}
use operations_procedure_sup.SourceInfo.Lines.{is_commentary, advance}
use operations_procedure_sup.SourceInfo.Lines.Laws.{flow_stack-advance}
use operations_procedure_sup.SourceInfo.Loops.{for_loop_next}
use operations_procedure_sup.SourceInfo.Loops.Laws.{in_loop, next_round}

-- The loop: its variable, the first line of its body, the line of @NEXT, its last value, the
-- frames below its own, and the lines of the file.
pub record Loop : Type 0 where
  pub var_name : Text
  pub start : ℕ
  pub next : ℤ
  pub last : ℤ
  pub below : List Frame
  pub source : SourceInfo

-- The first line of the body is a command of the file, and the last value is a `long`.
pub record IsLoop (l : Loop) : Type 0 where
  pub in_text : l.start < length l.source.text
  pub command : is_commentary (line_at l.source.text l.start) ≡ false
  pub last_long : IsLong l.last

abbrev pub inside : Tools → Loop → SourceInfo
inside t l = in_loop (t.to_upper l.var_name) (pos l.start) l.next l.last l.below l.source

-- What the variable holds.
abbrev pub Holds : Tools → Loop → VarStore → ℤ → Type 0
Holds t l vs k = VarStore.get t (t.to_upper l.var_name) vs ≡ some (of_long k)

-- The result of a @NEXT that leaves the loop, with the store given.
abbrev pub left_with : Tools → Loop → VarStore → SourceInfo × VarStore × OztResult
left_with t l vs =
    let left = advance t (record (l.source) { flow_stack = l.below }) in (left.0, vs, left.1)

-- The result of a @NEXT that goes back to the body.
abbrev pub back_with : Tools → Loop → VarStore → SourceInfo × VarStore × OztResult
back_with t l vs = (at (inside t l) (pos l.start), vs, of_code no_problem)

-- `Runs t l n vs`: from a @NEXT with the store `vs`, the loop is left at the n-th @NEXT.
pub data Runs (t : Tools) (l : Loop) : ℕ → VarStore → Type 0 where
  leave :
      (vs vs1 : VarStore)
      → for_loop_next t l.var_name (inside t l) vs ≡ left_with t l vs1
      → Runs t l 1 vs
  again :
      (n : ℕ) (vs vs1 vs2 : VarStore)
      → for_loop_next t l.var_name (inside t l) vs ≡ back_with t l vs1
      → VarStore.get t (t.to_upper l.var_name) vs2 ≡ VarStore.get t (t.to_upper l.var_name) vs1
      → Runs t l n vs2
      → Runs t l (suc n) vs

-- `IsLeft t l n vs`: from a @NEXT with the store `vs`, the loop is left at the n-th @NEXT whatever the
-- body does in between, as long as it keeps the variable.
pub data IsLeft (t : Tools) (l : Loop) : ℕ → VarStore → Type 0 where
  leave :
      (vs vs1 : VarStore)
      → for_loop_next t l.var_name (inside t l) vs ≡ left_with t l vs1
      → IsLeft t l 1 vs
  again :
      (n : ℕ) (vs vs1 : VarStore)
      → for_loop_next t l.var_name (inside t l) vs ≡ back_with t l vs1
      → ((vs2 : VarStore)
          → VarStore.get t (t.to_upper l.var_name) vs2 ≡ VarStore.get t (t.to_upper l.var_name) vs1
          → IsLeft t l n vs2)
      → IsLeft t l (suc n) vs

-- A @NEXT goes back, or leaves, and never both: the stacks differ in length.
left-ne-back : (t : Tools) (l : Loop) (vs vs1 : VarStore) → ¬ (left_with t l vs ≡ back_with t l vs1)
left-ne-back t l vs vs1 e =
    let same = ap (λ (p : SourceInfo × VarStore × OztResult). length p.0.flow_stack) e in
    let kept =
      ap (length {A = Frame}) (flow_stack-advance t (record (l.source) { flow_stack = l.below })) in
    absurd (omega (arith, same, kept))

same_store :
    (t : Tools) (l : Loop) (vs vs1 : VarStore) → back_with t l vs ≡ back_with t l vs1 → vs ≡ vs1
same_store t l vs vs1 e = ap (λ (p : SourceInfo × VarStore × OztResult). p.1) e

next_value : (k : ℕ) → k < 2147483647 → wrap32 (pos k +ℤ pos 1) ≡ pos (k + 1)
next_value k h = rw (+ℤ-pos k 1) (wrap32_id (pos (k + 1)) (omega arith))

above→lt : (m k : ℕ) → ltb_ℤ (pos m) (pos (k + 1)) ≡ true → m < k + 1
above→lt m k h = ground arith

below→le : (m k : ℕ) → ltb_ℤ (pos m) (pos (k + 1)) ≡ false → k + 1 ≤ m
below→le m k h = ground arith

none_above : (a w : ℤ) → pos 2147483647 ≤ℤ a → IsInt w → ¬ (ltb_ℤ a w ≡ true)
none_above a (pos w) big h e = ground arith
none_above a (negsuc w) big h e = ground arith

module _ (t : Tools) (reads : ReadsNumerals t) (l : Loop) (is_loop : IsLoop l) where
  -- The store behind a @NEXT at which the variable holds k.
  abbrev stepped : VarStore → ℤ → VarStore
  stepped vs k = VarStore.put t (t.to_upper l.var_name) (of_long (wrap32 (k +ℤ pos 1))) vs

  stepped-Holds : (vs : VarStore) (k : ℤ) → Holds t l (stepped vs k) (wrap32 (k +ℤ pos 1))
  stepped-Holds vs k =
      get-put t (t.to_upper l.var_name) (t.to_upper l.var_name) (of_long (wrap32 (k +ℤ pos 1))) vs
      ∙ rw (text_eq_refl (t.to_upper (t.to_upper l.var_name)))

  round_at :
      (vs : VarStore) (k : ℤ)
      → Holds t l vs k
      → IsInt k
      → for_loop_next t l.var_name (inside t l) vs ≡ (
          if ltb_ℤ l.last (wrap32 (k +ℤ pos 1))
          then left_with t l (stepped vs k)
          else back_with t l (stepped vs k))
  round_at vs k g h =
      next_round t reads l.var_name l.start l.next l.last l.below l.source vs k g h
        is_loop.last_long is_loop.in_text is_loop.command

  -- Whether a @NEXT leaves is decided by the next value of the variable.
  leaves_above :
      (vs vs1 : VarStore) (k : ℤ)
      → Holds t l vs k
      → IsInt k
      → for_loop_next t l.var_name (inside t l) vs ≡ left_with t l vs1
      → ltb_ℤ l.last (wrap32 (k +ℤ pos 1)) ≡ true
  leaves_above vs vs1 k g h e = elim (Bool-cases (ltb_ℤ l.last (wrap32 (k +ℤ pos 1)))) [
    | inl above ↦ above
    | inr below ↦
        absurd (left-ne-back t l vs1 (stepped vs k) (sym e ∙ round_at vs k g h ∙ rw below))
  ]

  stays_below :
      (vs vs1 : VarStore) (k : ℤ)
      → Holds t l vs k
      → IsInt k
      → for_loop_next t l.var_name (inside t l) vs ≡ back_with t l vs1
      → (ltb_ℤ l.last (wrap32 (k +ℤ pos 1)) ≡ false) × (vs1 ≡ stepped vs k)
  stays_below vs vs1 k g h e = elim (Bool-cases (ltb_ℤ l.last (wrap32 (k +ℤ pos 1)))) [
    | inl above ↦
        absurd (left-ne-back t l (stepped vs k) vs1 (sym (round_at vs k g h ∙ rw above) ∙ e))
    | inr below ↦ (below, same_store t l vs1 (stepped vs k) (sym e ∙ round_at vs k g h ∙ rw below))
  ]

  -- The body of a loop from k to m, both not negative and m below 2147483647, runs m - k + 1 times.
  pub Runs-count :
      (n k m : ℕ) (vs : VarStore)
      → l.last ≡ pos m
      → m < 2147483647
      → k ≤ m
      → Holds t l vs (pos k)
      → Runs t l n vs
      → n + k ≡ m + 1
  Runs-count n k m vs lm small le g (Runs.leave _ vs1 e) =
      let above = leaves_above vs vs1 (pos k) g (omega arith) e in
      omega (arith, above→lt m k (rw (lm, next_value k (omega arith)) at above))
  Runs-count n k m vs lm small le g (Runs.again n' _ vs1 vs2 e kept r) =
      let (below, same) = stays_below vs vs1 (pos k) g (omega arith) e in
      let kept' : Holds t l vs2 (pos (k + 1)) =
        kept
        ∙ ap (VarStore.get t (t.to_upper l.var_name)) same
        ∙ stepped-Holds vs (pos k)
        ∙ ap (λ z. some (of_long z)) (next_value k (omega arith)) in
      let le' = below→le m k (rw (lm, next_value k (omega arith)) at below) in
      omega (arith, Runs-count n' (k + 1) m vs2 lm small le' kept' r)

  -- A loop whose last value is 2147483647 or more is never left: the variable wraps around.
  pub loop_endless :
      (n : ℕ) (k : ℤ) (vs : VarStore)
      → pos 2147483647 ≤ℤ l.last
      → IsInt k
      → Holds t l vs k
      → ¬ Runs t l n vs
  loop_endless n k vs big h g (Runs.leave _ vs1 e) =
      none_above l.last (wrap32 (k +ℤ pos 1)) big (wrap32-IsInt (k +ℤ pos 1))
        (leaves_above vs vs1 k g h e)
  loop_endless n k vs big h g (Runs.again n' _ vs1 vs2 e kept r) =
      let (below, same) = stays_below vs vs1 k g h e in
      loop_endless n' (wrap32 (k +ℤ pos 1)) vs2 big (wrap32-IsInt (k +ℤ pos 1))
        (kept ∙ ap (VarStore.get t (t.to_upper l.var_name)) same ∙ stepped-Holds vs k) r

  goes_out :
      (k : ℕ) → l.last ≡ pos k → k < 2147483647 → ltb_ℤ l.last (wrap32 (pos k +ℤ pos 1)) ≡ true
  goes_out k lm small = rw (lm, next_value k small) (ground arith)

  goes_back :
      (k m : ℕ)
      → l.last ≡ pos m
      → k < m
      → m < 2147483647
      → ltb_ℤ l.last (wrap32 (pos k +ℤ pos 1)) ≡ false
  goes_back k m lm lt small = rw (lm, next_value k (omega arith)) (ground arith)

  -- A loop from k to k + d, neither of them negative and k + d below 2147483647, is left at the
  -- @NEXT number d + 1, whatever the body does to the store between two @NEXT, if it keeps the
  -- variable.
  pub loop_ends :
      (d k : ℕ) (vs : VarStore)
      → l.last ≡ pos (k + d)
      → k + d < 2147483647
      → Holds t l vs (pos k)
      → IsLeft t l (suc d) vs
  loop_ends zero k vs lm small g =
      let e : k + 0 ≡ k = omega arith in
      IsLeft.leave vs (stepped vs (pos k))
        (round_at vs (pos k) g (omega arith) ∙ rw (goes_out k (lm ∙ ap pos e) (omega arith)) refl)
  loop_ends (suc d) k vs lm small g =
      let e : k + suc d ≡ (k + 1) + d = omega arith in
      IsLeft.again (suc d) vs (stepped vs (pos k))
        (round_at vs (pos k) g (omega arith)
          ∙ rw (goes_back k (k + suc d) lm (omega arith) small) refl)
        (λ vs2 kept. loop_ends d (k + 1) vs2 (lm ∙ ap pos e) (omega arith) (
          kept
          ∙ stepped-Holds vs (pos k)
          ∙ ap (λ z. some (of_long z)) (next_value k (omega arith))))

  -- A run in which the body does nothing is one of them.
  pub one_run : (n : ℕ) (vs : VarStore) → IsLeft t l n vs → Runs t l n vs
  one_run n vs (IsLeft.leave _ vs1 e) = Runs.leave vs vs1 e
  one_run n vs (IsLeft.again n' _ vs1 e rest) =
      Runs.again n' vs vs1 vs1 e refl (one_run n' vs1 (rest vs1 refl))
