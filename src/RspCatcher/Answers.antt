-- ===== src/RspCatcher/Answers.antt =====
-- What events do to a catcher that waits: responses, the time and the user.
use operations_procedure_sup.Common.{
  suc, Bool, true, false, ◌&&◌, ◌≡◌, refl, sym, ap, ◌∙◌, ◌⊎◌, inl, inr, List, [], ◌∷◌, Option, none,
  some, Option-cases, if◌then◌else◌, Bool-cases, minus_one,
}
use std.Path.{subst}
use operations_procedure_sup.ErrHandling.{OztResult, of_code, no_problem, interrupted, time_expired}
use operations_procedure_sup.CmdRspBuf.{CmdRspBuf, find}
use operations_procedure_sup.EventHandler.{set_result}
use operations_procedure_sup.RspCatcher.{
  change_state, State, idle, waitfor, waitreply, RspCatcher, Scene, wait_reply_check, is_undefined,
  update_from, time_out, interrupt,
}

-- The buffer has changed and calls `updateFrom`, the time is over, or the user interrupts.
pub data Event : Type 0 where
  response : CmdRspBuf → Event
  time_over : Event
  user_interrupt : Event

abbrev pub happens : {W : Type 0} → Event → Scene W → Scene W
happens (response b) s = update_from (record s { buffer = b })
happens time_over s = time_out s
happens user_interrupt s = interrupt s

abbrev pub happen : {W : Type 0} → List Event → Scene W → Scene W
happen [] s = s
happen (e ∷ es) s = happen es (happens e s)

-- The answer that an event is to a catcher that waits, if it is one.
abbrev pub answer : RspCatcher → Event → Option OztResult
answer c (response b) = elim c.state [
  | idle ↦ none
  | waitfor ↦
      if find c.expected_str1 minus_one b && find c.expected_str2 minus_one b
      then some (of_code no_problem)
      else none
  | waitreply ↦
      if is_undefined (wait_reply_check c b).code then none else some (wait_reply_check c b)
]
answer c time_over = some (of_code time_expired)
answer c user_interrupt = some (of_code interrupted)

abbrev pub or_else : Option OztResult → Option OztResult → Option OztResult
or_else none o = o
or_else (some r) o = some r

-- The first answer of events in order.
abbrev pub first_answer : RspCatcher → List Event → Option OztResult
first_answer c [] = none
first_answer c (e ∷ es) = or_else (answer c e) (first_answer c es)

-- Idle, with the listeners told once more.
abbrev pub told : RspCatcher → RspCatcher
told c = record c { state = idle; changes = suc c.changes }

with_state : (c : RspCatcher) (x : State) → c.state ≡ x → c ≡ change_state x c
with_state c x e = ap (λ y. change_state y c) e

-- The catcher waits on, or it is idle and has told its listeners and the event handler.
abbrev pub IsAnswered : {W : Type 0} → Option OztResult → Scene W → Scene W → Type 0
IsAnswered none s s1 = (s1.catcher ≡ s.catcher) × (s1.handler ≡ s.handler)
IsAnswered (some r) s s1 = (s1.catcher ≡ told s.catcher) × (s1.handler ≡ set_result r s.handler)

-- The catcher is not idle.
abbrev pub is_waiting : State → Bool
is_waiting idle = false
is_waiting waitfor = true
is_waiting waitreply = true

abbrev pub waits : RspCatcher → Bool
waits c = is_waiting c.state

waiting : (x : State) → is_waiting x ≡ true → (x ≡ waitfor) ⊎ (x ≡ waitreply)
waiting idle h = cc
waiting waitfor h = inl refl
waiting waitreply h = inr refl

module _ {W : Type 0} where
  -- Nothing changes a catcher that is idle.
  happens-idle :
      (e : Event) (s : Scene W) → s.catcher.state ≡ idle → IsAnswered none s (happens e s)
  unfolding update_from time_out interrupt
  happens-idle (response b) s h = rw h (refl, refl)
  happens-idle time_over s h = rw h (refl, refl)
  happens-idle user_interrupt s h = rw h (refl, refl)

  happen-idle :
      (es : List Event) (s : Scene W) → s.catcher.state ≡ idle → IsAnswered none s (happen es s)
  happen-idle [] s h = (refl, refl)
  happen-idle (e ∷ es) s h =
      let (same, handled) = happens-idle e s h in
      let (still, kept) = happen-idle es (happens e s) (ap (λ c. c.state) same ∙ h) in
      (still ∙ same, kept ∙ handled)

  happens-answer :
      (e : Event) (s : Scene W)
      → waits s.catcher ≡ true
      → IsAnswered (answer s.catcher e) s (happens e s)
  unfolding update_from time_out interrupt
  happens-answer (response b) s h = elim (waiting s.catcher.state h) [
    | inl e ↦
        rw e
          (elim (Bool-cases (
            find s.catcher.expected_str1 minus_one b && find s.catcher.expected_str2 minus_one b)) [
              | inl f ↦ rw f (refl, refl)
              | inr f ↦ rw f (with_state s.catcher waitfor e, refl)
            ])
    | inr e ↦ rw e (elim (Bool-cases (is_undefined (wait_reply_check s.catcher b).code)) [
      | inl f ↦ rw f (with_state s.catcher waitreply e, refl)
      | inr f ↦ rw f (refl, refl)
    ])
  ]
  happens-answer time_over s h = elim (waiting s.catcher.state h) [
    | inl e ↦ rw e (refl, refl)
    | inr e ↦ rw e (refl, refl)
  ]
  happens-answer user_interrupt s h = elim (waiting s.catcher.state h) [
    | inl e ↦ rw e (refl, refl)
    | inr e ↦ rw e (refl, refl)
  ]

  -- An event that is no answer makes no difference to the answer that comes.
  IsAnswered-later :
      (o : Option OztResult) (s s1 s2 : Scene W)
      → IsAnswered none s s1
      → IsAnswered o s1 s2
      → IsAnswered o s s2
  IsAnswered-later none s s1 s2 (same, handled) (a, b) = (a ∙ same, b ∙ handled)
  IsAnswered-later (some r) s s1 s2 (same, handled) (a, b) =
      (a ∙ ap told same, b ∙ ap (set_result r) handled)

  -- With the answer of the first event.
  known :
      (e : Event) (es : List Event) (s : Scene W) (o : Option OztResult)
      → answer s.catcher e ≡ o
      → IsAnswered (or_else o (first_answer s.catcher es)) s (happen es (happens e s))
      → IsAnswered (first_answer s.catcher (e ∷ es)) s (happen (e ∷ es) s)
  known e es s o a h =
      subst (λ o. IsAnswered (or_else o (first_answer s.catcher es)) s (happen es (happens e s)))
        (sym a) h

  -- A catcher that waits is answered once: after any events, if the first answer among them is r,
  -- the catcher is idle, has told its listeners once, and the event handler has the result r; and
  -- if none of them is an answer, the catcher and the handler are as they were.
  pub happen-first_answer :
      (es : List Event) (s : Scene W)
      → waits s.catcher ≡ true
      → IsAnswered (first_answer s.catcher es) s (happen es s)
  happen-first_answer [] s h = (refl, refl)
  happen-first_answer (e ∷ es) s h =
      let s1 = happens e s in
      let now = happens-answer e s h in
      elim (Option-cases (answer s.catcher e)) [
        | inl n ↦
            let quiet = subst (λ o. IsAnswered o s s1) n now in
            let later = happen-first_answer es s1 (ap waits quiet.0 ∙ h) in
            known e es s none n (
              IsAnswered-later (first_answer s.catcher es) s s1 (happen es s1) quiet
                (subst (λ c. IsAnswered (first_answer c es) s1 (happen es s1)) quiet.0 later))
        | inr (r, a) ↦
            let (caught, handled) = subst (λ o. IsAnswered o s s1) a now in
            let (still, kept) = happen-idle es s1 (ap (λ c. c.state) caught) in
            known e es s (some r) a (still ∙ caught, kept ∙ handled)
      ]
