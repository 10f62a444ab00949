-- ===== src/Clock/Delays.antt =====
-- A delay takes as many seconds as it is long, unless the user interrupts it.
use operations_procedure_sup.Common.{
  ℕ, zero, suc, ◌<◌, ◌*◌, ◌%◌, Bool, true, false, ◌&&◌, ◌||◌, ◌==◌, ltb, leb, List, ◌∷◌, ℤ, ◌≡◌,
  refl, ap, ◌∙◌, Option, some, if◌then◌else◌, pos, -ℤ_one, inl, inr, Bool-cases, sym, ◌*ℤ◌, ltb_ℤ,
  arith,
}
use operations_procedure_sup.Tools.{Tools}
use operations_procedure_sup.ErrHandling.{OztResult, of_code, no_problem, fresh, is_ok}
use operations_procedure_sup.Value.Words.{IsLong, wrap64, wrap64_id}
use operations_procedure_sup.Value.Convert.{of_long}
use operations_procedure_sup.Value.Convert.Laws.{ReadsNumerals, to_long-of_long}
use operations_procedure_sup.OzTime.{OzTime}
use operations_procedure_sup.Clock.{
  Scene, with_clock, is_shown, show_left, set_delay_interrupt, delay_loop, started, ended, delays,
  start_delay, delay, delay_sec,
}

is_positive : (n : ℕ) → ltb_ℤ (pos 0) (pos (suc n)) ≡ true
is_positive n = ground arith

more_than_none : (n : ℕ) → 0 < n → ltb_ℤ (pos 0) (pos n) ≡ true
more_than_none n p = ground arith

whichever :
    {A : Type 0} (b : Bool) (x y : A) → (if b then some x else some y) ≡ some (if b then x else y)
whichever true x y = refl
whichever false x y = refl

sixty_times : (m : ℕ) → pos m *ℤ pos 60 ≡ pos (m * 60)
unfolding ◌*ℤ◌
sixty_times m = ground arith

in_seconds : (m : ℕ) → IsLong (pos (m * 60)) → wrap64 (pos m *ℤ pos 60) ≡ pos (m * 60)
in_seconds m long = ap wrap64 (sixty_times m) ∙ wrap64_id (pos (m * 60)) long

module _ {W : Type 0} (sleep : Scene W → Scene W) where
  -- The seconds of a delay, one behind the other, up to an interrupt.
  unfoldable pub seconds : ℕ → Scene W → Scene W
  seconds zero s = s
  seconds (suc n) s =
      let rest = seconds n (sleep (show_left (pos n) s)) in
      if s.clock.delay_interrupted then with_clock (set_delay_interrupt false s.clock) s else rest

  delay_loop-seconds :
      (n f : ℕ) (s : Scene W) → n < f → delay_loop sleep f (pos n) s ≡ some (seconds n s)
  unfolding delay_loop seconds
  delay_loop-seconds zero zero s h = absurd (omega arith)
  delay_loop-seconds zero (suc f) s h = refl
  delay_loop-seconds (suc n) zero s h = absurd (omega arith)
  delay_loop-seconds (suc n) (suc f) s h =
      let s1 = sleep (show_left (pos n) s) in
      let stopped = with_clock (set_delay_interrupt false s.clock) s in
      let inner = delay_loop-seconds n f s1 (omega arith) in
      rw (is_positive n, -ℤ_one n)
        (rw inner (whichever s.clock.delay_interrupted stopped (seconds n s1)))

  -- What a delay of n seconds gives.
  abbrev pub behind : ℕ → OzTime → Scene W → Option (OztResult × Scene W)
  behind n now s = some (of_code no_problem, ended (seconds n (started now (pos n) s)))

  delays-behind :
      (n f : ℕ) (now : OzTime) (s : Scene W)
      → n < f
      → delays sleep f now true (pos n) s ≡ behind n now s
  unfolding start_delay
  delays-behind n f now s h = rw (delay_loop-seconds n f (started now (pos n) s) h) refl

  module _ (t : Tools) (reads : ReadsNumerals t) where
    delay_sec-behind :
        (n f : ℕ) (now : OzTime) (s : Scene W)
        → 0 < n
        → n < f
        → IsLong (pos n)
        → delay_sec sleep t f now (of_long (pos n)) s ≡ behind n now s
    unfolding delay_sec is_ok
    delay_sec-behind n f now s p h long =
        rw (to_long-of_long t reads (pos n) fresh long)
          (rw (more_than_none n p) (delays-behind n f now s h))

    delay-behind :
        (m f : ℕ) (now : OzTime) (s : Scene W)
        → 0 < m
        → m * 60 < f
        → IsLong (pos (m * 60))
        → delay sleep t f now (of_long (pos m)) s ≡ behind (m * 60) now s
    unfolding delay is_ok
    delay-behind m f now s p h long = rw (to_long-of_long t reads (pos m) fresh (omega arith)) (
        rw (more_than_none m p) (
          ap (λ z. delays sleep f now true z s) (in_seconds m long)
          ∙ delays-behind (m * 60) f now s h))

-- The seconds that the user is told of: all up to 30, the even ones up to 60, and behind that each
-- fifth.
unfoldable pub is_due : ℕ → Bool
is_due n = leb n 30 || ((leb n 60 && n % 2 == 0) || n % 5 == 0 && ltb 60 n)

-- What is told of a delay of n seconds of which k are slept, the latest first.
unfoldable pub told : ℕ → ℕ → List ℤ → List ℤ
unfolding is_due
told zero k before = before
told (suc n) zero before = before
told (suc n) (suc k) before = told n k (if is_due n then pos n ∷ before else before)

-- The world behind k seconds.
unfoldable pub passed : {W : Type 0} → (W → W) → ℕ → W → W
passed tick zero w = w
passed tick (suc k) w = passed tick k (tick w)

-- How many of n seconds are slept: all up to the one in which the user interrupts, if any.
unfoldable pub slept : {W : Type 0} → (W → W) → (W → Bool) → ℕ → W → ℕ
slept tick stops zero w = 0
slept tick stops (suc n) w = if stops w then 1 else suc (slept tick stops n (tick w))

told_none : (n : ℕ) (before : List ℤ) → told n 0 before ≡ before
unfolding told
told_none zero before = refl
told_none (suc n) before = refl

is_shown-is_due : (n : ℕ) → is_shown (pos n) ≡ is_due n
unfolding is_shown is_due
is_shown-is_due n = ground arith

module _ {W : Type 0} (tick : W → W) (stops : W → Bool) where
  -- A second of sleep: the world goes on, and the user may interrupt.
  abbrev pub second : Scene W → Scene W
  second s = record s {
    clock = set_delay_interrupt (s.clock.delay_interrupted || stops s.rest) s.clock;
    rest = tick s.rest;
  }

  -- What a delay of n seconds does to the world and tells the user.
  abbrev Told : ℕ → Scene W → Type 0
  Told n s =
      ((seconds second n s).rest ≡ passed tick (slept tick stops n s.rest) s.rest)
      × ((seconds second n s).shown ≡ told n (slept tick stops n s.rest) s.shown)

  -- A delay that is interrupted sleeps no more.
  seconds-stopped :
      (n : ℕ) (s : Scene W)
      → s.clock.delay_interrupted ≡ true
      → ((seconds second n s).rest ≡ s.rest) × ((seconds second n s).shown ≡ s.shown)
  unfolding seconds
  seconds-stopped zero s h = (refl, refl)
  seconds-stopped (suc n) s h = rw h (refl, refl)

  -- The scene behind what is told of the second n, and behind the second.
  abbrev shown_second : ℕ → Scene W → Scene W
  shown_second n s = second (record s { shown = if is_due n then pos n ∷ s.shown else s.shown })

  show_left-is_due :
      (n : ℕ) (s : Scene W)
      → s.clock.has_listener ≡ true
      → second (show_left (pos n) s) ≡ shown_second n s
  unfolding show_left
  show_left-is_due n s l = elim (Bool-cases (is_due n)) [
    | inl e ↦ rw (is_shown-is_due n, e, l) refl
    | inr e ↦ rw (is_shown-is_due n, e) refl
  ]

  one_second :
      (n : ℕ) (s : Scene W)
      → s.clock.delay_interrupted ≡ false
      → s.clock.has_listener ≡ true
      → seconds second (suc n) s ≡ seconds second n (shown_second n s)
  unfolding seconds
  one_second n s h l =
      let stopped = with_clock (set_delay_interrupt false s.clock) s in
      let rest = seconds second n (second (show_left (pos n) s)) in
      ap (λ b. if b then stopped else rest) h ∙ ap (seconds second n) (show_left-is_due n s l)

  slept_stopped : (n : ℕ) (w : W) → stops w ≡ true → slept tick stops (suc n) w ≡ 1
  unfolding slept
  slept_stopped n w e = rw e refl

  slept_on :
      (n : ℕ) (w : W)
      → stops w ≡ false
      → slept tick stops (suc n) w ≡ suc (slept tick stops n (tick w))
  unfolding slept
  slept_on n w e = rw e refl

  by_slept :
      (n k : ℕ) (s : Scene W)
      → slept tick stops (suc n) s.rest ≡ suc k
      → seconds second (suc n) s ≡ seconds second n (shown_second n s)
      → (seconds second n (shown_second n s)).rest ≡ passed tick k (tick s.rest)
      → (seconds second n (shown_second n s)).shown ≡ told n k (shown_second n s).shown
      → Told (suc n) s
  unfolding passed told
  by_slept n k s e one r sh = (
    ap (λ (s : Scene W). s.rest) one ∙ r ∙ ap (λ k. passed tick k s.rest) (sym e),
    ap (λ (s : Scene W). s.shown) one ∙ sh ∙ ap (λ k. told (suc n) k s.shown) (sym e),
  )

  seconds-Told :
      (n : ℕ) (s : Scene W)
      → s.clock.delay_interrupted ≡ false
      → s.clock.has_listener ≡ true
      → Told n s
  unfolding set_delay_interrupt passed
  seconds-Told zero s h l = (unfold seconds slept passed in refl, unfold seconds told in refl)
  seconds-Told (suc n) s h l = elim (Bool-cases (stops s.rest)) [
    | inl e ↦
        let (r, sh) = seconds-stopped n (shown_second n s) (rw (h, e) refl) in
        by_slept n 0 s (slept_stopped n s.rest e) (one_second n s h l) r
          (sh ∙ sym (told_none n (shown_second n s).shown))
    | inr e ↦
        let (r, sh) = seconds-Told n (shown_second n s) (rw (h, e) refl) l in
        by_slept n (slept tick stops n (tick s.rest)) s (slept_on n s.rest e) (one_second n s h l) r
          sh
  ]

  -- What a delay of n seconds answers, and leaves of the world and of what was shown.
  abbrev pub Waits : ℕ → Scene W → Option (OztResult × Scene W) → Type 0
  Waits n s o =
      let k = slept tick stops n s.rest in
      (s1 : Scene W) × (o ≡ some (of_code no_problem, s1))
      × (s1.rest ≡ passed tick k s.rest)
      × (s1.shown ≡ told n k s.shown)
      × (s1.clock.busy ≡ false)

  waits :
      (n : ℕ) (now : OzTime) (s : Scene W) (o : Option (OztResult × Scene W))
      → s.clock.delay_interrupted ≡ false
      → s.clock.has_listener ≡ true
      → o ≡ behind second n now s
      → Waits n s o
  waits n now s o h l e =
      let (r, sh) = seconds-Told n (started now (pos n) s) h l in
      (ended (seconds second n (started now (pos n) s)), e, r, sh, refl)

  -- @DELAY of m minutes and @DELAYSEC of n seconds, both positive and in the range of a long, on
  -- fuel for one round more than there are seconds, with a listener and no interrupt left from
  -- before: they end with NO_PROBLEM and the clock not busy, and have slept 60 m or n seconds, or up
  -- to the second in which the user interrupts. Before each of these seconds the listener is told
  -- how many are left behind it, if these are at most 30, or an even number up to 60, or a multiple
  -- of 5.
  pub delay-delay_sec :
      (t : Tools) (reads : ReadsNumerals t) (m n f : ℕ) (now : OzTime) (s : Scene W)
      → s.clock.delay_interrupted ≡ false
      → s.clock.has_listener ≡ true
      → (0 < m) × (m * 60 < f) × IsLong (pos (m * 60))
      → (0 < n) × (n < f) × IsLong (pos n)
      → Waits (m * 60) s (delay second t f now (of_long (pos m)) s)
        × Waits n s (delay_sec second t f now (of_long (pos n)) s)
  delay-delay_sec t reads m n f now s h l (p, q, long) (p1, q1, long1) = (
    waits (m * 60) now s _ h l (delay-behind second t reads m f now s p q long),
    waits n now s _ h l (delay_sec-behind second t reads n f now s p1 q1 long1),
  )
