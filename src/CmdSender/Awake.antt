-- ===== src/CmdSender/Awake.antt =====
-- The states in which the sender waits, and the answers that end the waiting.
pub mod Answers
pub mod Events
use operations_procedure_sup.Common.{
  Bool, true, false, not, ◌≡◌, refl, ap, ◌∙◌, ◌⊎◌, inl, inr, Bool-cases, if◌then◌else◌, Text, ℤ,
}
use operations_procedure_sup.ErrHandling.{OztResult}
use operations_procedure_sup.EventHandler.{set_result}
use operations_procedure_sup.RspCatcher.{is_null}
use operations_procedure_sup.RspReceiver.{
  Desk, log_off, flush_stored_del_resp, flush_stored_spont_resp, ends_stored,
}
use operations_procedure_sup.RspReceiver
use operations_procedure_sup.CmdSender.{
  State, idle, connection_lost, confirm_pending, logging_on, wait_imm_rsp, wait_del_rsp,
  funbusy_wait, wait_imm_rsp_confirmed, funbusy_wait_confirmed, Station, Library, state_of,
  change_state, flush_stored_responses, flushes_if_idle,
}
use operations_procedure_sup.CmdSender.Events.{answers, finishes}

-- In these states something is still to come that will call `setResult`.
abbrev pub is_waiting : State → Bool
is_waiting idle = false
is_waiting connection_lost = false
is_waiting confirm_pending = false
is_waiting _ = true

-- From one station to another: an answer is not taken back, and the waiting ends with an answer.
unfoldable pub IsAwake : {W : Type 0} → Station W → Station W → Type 0
IsAwake s s1 =
    (s.handler.get_out ≡ true → s1.handler.get_out ≡ true)
    × (is_waiting (state_of s) ≡ true
        → (is_waiting (state_of s1) ≡ true) ⊎ (s1.handler.get_out ≡ true))

-- The event handler and the rest of the world are left alone.
unfoldable IsOutside : {W : Type 0} → Desk W → Desk W → Type 0
IsOutside d d1 = (d1.handler ≡ d.handler) × (d1.rest ≡ d.rest)

flush_stored_spont_resp-IsOutside :
    {W : Type 0} (d : Desk W) → IsOutside d (flush_stored_spont_resp d)
unfolding flush_stored_spont_resp IsOutside
flush_stored_spont_resp-IsOutside d = elim (Bool-cases (is_null d.receiver.stored_spont_rsp)) [
  | inl e ↦ rw e (refl, refl)
  | inr e ↦ rw e (refl, refl)
]

flush_stored_del_resp-IsOutside :
    {W : Type 0} (d : Desk W) → IsOutside d (flush_stored_del_resp d).1
unfolding flush_stored_del_resp IsOutside
flush_stored_del_resp-IsOutside d = elim (Bool-cases (is_null d.receiver.stored_del_rsp)) [
  | inl e ↦ rw e (refl, refl)
  | inr e ↦ rw e (refl, refl)
]

IsOutside-trans : {W : Type 0} (a b c : Desk W) → IsOutside a b → IsOutside b c → IsOutside a c
unfolding IsOutside
IsOutside-trans a b c (h, r) (h1, r1) = (h1 ∙ h, r1 ∙ r)

-- A test holds a property if both of its branches do.
pub either :
    {A : Type 0} (P : A → Type 0) (b : Bool) {x y : A}
    → (b ≡ true → P x)
    → (b ≡ false → P y)
    → P (if b then x else y)
either P true here there = here refl
either P false here there = there refl

log_off-IsOutside : {W : Type 0} (d : Desk W) → IsOutside d (log_off d).1
unfolding log_off ends_stored IsOutside
log_off-IsOutside d =
    either (λ (r : Bool × Desk _). IsOutside d r.1) (not d.receiver.logging_on) (λ e. (refl, refl))
      (λ e.
        let d1 = flush_stored_spont_resp d in
        let first = flush_stored_spont_resp-IsOutside d in
        IsOutside-trans d d1 (flush_stored_del_resp d1).1 first
          (flush_stored_del_resp-IsOutside d1))

module _ {W : Type 0} where
  flush_stored_responses-IsOutside : (s : Station W) → IsOutside s (flush_stored_responses s)
  unfolding flush_stored_responses
  flush_stored_responses-IsOutside s =
      let s1 = flush_stored_spont_resp s in
      let first = flush_stored_spont_resp-IsOutside s in
      either (IsOutside s) s.rest.sender.ordered_on
        (λ e. IsOutside-trans s s1 _ first (flush_stored_del_resp-IsOutside s1)) (λ e. first)

  flushes_if_idle-IsOutside : (x : State) (s : Station W) → IsOutside s (flushes_if_idle x s)
  unfolding IsOutside
  flushes_if_idle-IsOutside idle s = flush_stored_responses-IsOutside s
  flushes_if_idle-IsOutside connection_lost s = (refl, refl)
  flushes_if_idle-IsOutside confirm_pending s = (refl, refl)
  flushes_if_idle-IsOutside logging_on s = (refl, refl)
  flushes_if_idle-IsOutside wait_imm_rsp s = (refl, refl)
  flushes_if_idle-IsOutside wait_del_rsp s = (refl, refl)
  flushes_if_idle-IsOutside funbusy_wait s = (refl, refl)
  flushes_if_idle-IsOutside wait_imm_rsp_confirmed s = (refl, refl)
  flushes_if_idle-IsOutside funbusy_wait_confirmed s = (refl, refl)

  -- The sender gets its new state, and nothing is answered.
  pub change_state-state_of : (x : State) (s : Station W) → state_of (change_state x s) ≡ x
  unfolding change_state IsOutside
  change_state-state_of x s = ap (λ p. p.sender.sender_state) (flushes_if_idle-IsOutside x _).1

  pub handler-change_state : (x : State) (s : Station W) → (change_state x s).handler ≡ s.handler
  unfolding change_state IsOutside
  handler-change_state x s = (flushes_if_idle-IsOutside x _).0

  pub world-change_state :
      (x : State) (s : Station W) → (change_state x s).rest.world ≡ s.rest.world
  unfolding change_state IsOutside
  world-change_state x s = ap (λ p. p.world) (flushes_if_idle-IsOutside x _).1

  finishes-get_out : (r : OztResult) (s : Station W) → (finishes r s).handler.get_out ≡ true
  unfolding set_result
  finishes-get_out r s = ap (λ h. h.get_out) (handler-change_state idle (answers r s))

  -- Where an answer is given, and where the sender goes on to wait.
  pub by_answer : (s s1 : Station W) → s1.handler.get_out ≡ true → IsAwake s s1
  unfolding IsAwake
  by_answer s s1 e = (λ h. e, λ h. inr e)

  by_waiting :
      (s s1 : Station W)
      → s1.handler.get_out ≡ s.handler.get_out
      → is_waiting (state_of s1) ≡ true
      → IsAwake s s1
  unfolding IsAwake
  by_waiting s s1 same e = (λ h. same ∙ h, λ h. inl e)

  pub by_rest :
      (s s1 : Station W)
      → (s.handler.get_out ≡ true → s1.handler.get_out ≡ true)
      → is_waiting (state_of s) ≡ false
      → IsAwake s s1
  unfolding IsAwake
  by_rest s s1 keeps e = (keeps, λ h. cc)

  pub IsAwake-refl : (s : Station W) → IsAwake s s
  unfolding IsAwake
  IsAwake-refl s = (λ h. h, λ h. inl h)

  pub IsAwake-trans : (a b c : Station W) → IsAwake a b → IsAwake b c → IsAwake a c
  unfolding IsAwake
  IsAwake-trans a b c (k, w) (k1, w1) =
      (λ h. k1 (k h), λ h. elim (w h) [ inl e ↦ w1 e | inr e ↦ inr (k1 e) ])

  pub answers-IsAwake :
      (r : OztResult) (x : State) (a s : Station W) → IsAwake a (change_state x (answers r s))
  unfolding set_result
  answers-IsAwake r x a s =
      by_answer a _ (ap (λ h. h.get_out) (handler-change_state x (answers r s)))

  pub finishes-IsAwake : (r : OztResult) (a s : Station W) → IsAwake a (finishes r s)
  finishes-IsAwake r a s = by_answer a _ (finishes-get_out r s)

  -- A change of state to one in which the sender waits.
  pub change_state-IsAwake :
      (x : State) (s : Station W) → is_waiting x ≡ true → IsAwake s (change_state x s)
  change_state-IsAwake x s e =
      by_waiting s _ (ap (λ h. h.get_out) (handler-change_state x s))
        (ap is_waiting (change_state-state_of x s) ∙ e)

  pub same_post :
      (s s1 : Station W)
      → s1.handler.get_out ≡ s.handler.get_out
      → state_of s1 ≡ state_of s
      → IsAwake s s1
  unfolding IsAwake
  same_post s s1 same e = (λ h. same ∙ h, λ h. inl (ap is_waiting e ∙ h))

  pub log_off-IsAwake : (s : Station W) → IsAwake s (log_off s).1
  unfolding IsAwake IsOutside
  log_off-IsAwake s =
      let (h, r) = log_off-IsOutside s in
      (λ e. ap (λ h. h.get_out) h ∙ e, λ e. inl (ap (λ p. is_waiting p.sender.sender_state) r ∙ e))

  -- What is answered stays answered in a new state.
  pub keeps_answer :
      (x : State) (s s1 : Station W)
      → IsAwake s s1
      → s.handler.get_out ≡ true
      → (change_state x s1).handler.get_out ≡ true
  unfolding IsAwake
  keeps_answer x s s1 (k, w) h = ap (λ h. h.get_out) (handler-change_state x s1) ∙ k h

  -- The calls of the library, which may call the sender back, take no answer back and lose none.
  abbrev pub IsGentle : Library W → Type 0
  IsGentle lib =
      ((cmd prompt : Text) (s : Station W) → IsAwake s (lib.send_command cmd prompt s).1)
      × ((b : Bool) (s : Station W) → IsAwake s (lib.confirm_command b s).1)
      × ((s : Station W) → IsAwake s (lib.check_ipc s))
      × ((z : ℤ) (s : Station W) → IsAwake s (lib.sleep z s))
      × ((s : Station W) → IsAwake s (lib.cancel_imm s))
      × ((s : Station W) → IsAwake s (lib.cancel_del s))
      × ((s : Station W) → IsAwake s (lib.cancel_spont s))
      × ((s : Station W) → IsAwake s (lib.disconnect s))
      × ((s : Station W) → IsAwake s (lib.reconnect s))
