-- ===== src/CmdSender/Retries.antt =====
-- The retries of a command that is answered with FUNCTION BUSY.
use operations_procedure_sup.Common.{
  ℕ, zero, suc, ◌≡◌, refl, sym, ap, ◌∙◌, not, if◌then◌else◌, Text, true, ltb_ℤ, ℤ, pos, ◌-ℤ◌,
  -ℤ_one, arith,
}
use std.Path.{subst}
use operations_procedure_sup.ErrHandling.{of_code, is_ok, funbusy}
use operations_procedure_sup.EventHandler.{set_result}
use operations_procedure_sup.CmdSender.{
  idle, wait_imm_rsp, funbusy_wait, ReturnCode, ret_okay, dec_fun_busy_counter, Station, Library,
  state_of, with_sender, change_state,
}
use operations_procedure_sup.CmdSender.Events.{
  actual_send, time_out, busy_answer, fun_busy_event, finishes, sent_result, fun_busy_event_at,
  answers,
}
use operations_procedure_sup.CmdSender.Commands.{starts_waiting}
use operations_procedure_sup.CmdSender.Awake.{
  change_state-state_of, world-change_state, handler-change_state,
}

abbrev pub with_world : {W : Type 0} → W → Station W → Station W
with_world w s = record s { rest = record s.rest { world = w } }

-- A library that accepts every command, and whose calls change nothing but the world.
abbrev pub IsQuiet : {W : Type 0} → Library W → (W → W) → (ℤ → W → W) → Type 0
IsQuiet {W} lib sent slept =
    ((cmd prompt : Text) (s : Station W)
      → lib.send_command cmd prompt s ≡ (ret_okay, with_world (sent s.rest.world) s))
    × ((z : ℤ) (s : Station W) → lib.sleep z s ≡ with_world (slept z s.rest.world) s)
    × ((s : Station W) → lib.check_ipc s ≡ s)

-- The last command is sent once more, and one attempt less is left.
abbrev pub tried : {W : Type 0} → ℤ → W → Station W → Station W
tried left w s = with_world w (
    with_sender
      (record s.rest.sender {
        sender_state = wait_imm_rsp;
        fun_busy_counter = left;
        wait_dl_rsp = 0;
      })
      s)

-- So many sleeps and sends.
abbrev pub rounds : {W : Type 0} → (W → W) → ℕ → W → W
rounds f zero w = w
rounds f (suc n) w = rounds f n (f w)

-- So many answers FUNCTION BUSY.
abbrev pub busy_answers : {W : Type 0} → Library W → ℕ → Station W → Station W
busy_answers lib zero s = s
busy_answers lib (suc n) s = busy_answers lib n (fun_busy_event lib s)

is_more : (n : ℕ) → ltb_ℤ (pos 0) (pos (suc n)) ≡ true
is_more n = ground arith

module _ {W : Type 0} (lib : Library W) (sent : W → W) (slept : ℤ → W → W)
    (quiet : IsQuiet lib sent slept) where
  -- The sending once more of a command that is accepted.
  time_out-sent :
      (s : Station W)
      → time_out lib (change_state funbusy_wait s)
        ≡ change_state wait_imm_rsp (with_world (sent s.rest.world) (change_state funbusy_wait s))
  unfolding time_out actual_send change_state sent_result is_ok
  time_out-sent s =
      ap
        (λ (r : ReturnCode × Station W).
          if is_ok (sent_result r.0).code
          then change_state wait_imm_rsp r.1
          else finishes (sent_result r.0) r.1)
        (quiet.0 s.rest.sender.last_sent_cmd _ (change_state funbusy_wait s))

  busy_answer-more :
      (n : ℕ) (s : Station W)
      → state_of s ≡ wait_imm_rsp
      → s.rest.sender.fun_busy_counter ≡ pos (suc n)
      → fun_busy_event lib s
        ≡ tried (pos n) (sent (slept s.rest.sender.fun_busy_interval s.rest.world)) s
  unfolding fun_busy_event busy_answer change_state
  busy_answer-more n s e c =
      let more = ap (λ z. ltb_ℤ (pos 0) z) c ∙ is_more n in
      let z = s.rest.sender.fun_busy_interval in
      let s1 = with_sender (dec_fun_busy_counter s.rest.sender) s in
      let s2 = with_world (slept z s.rest.world) s1 in
      let left = ap (λ z. z -ℤ pos 1) c ∙ -ℤ_one n in
      ap (λ x. fun_busy_event_at lib x s) e
      ∙ ap
          (λ b.
            if not b
            then finishes (of_code funbusy) s
            else lib.check_ipc (time_out lib (change_state funbusy_wait (lib.sleep z s1))))
          more
      ∙ quiet.2 _
      ∙ ap (λ r. time_out lib (change_state funbusy_wait r)) (quiet.1 z s1)
      ∙ time_out-sent s2
      ∙ ap (λ k. tried k (sent (slept z s.rest.world)) s) left

  busy_answer-last :
      (s : Station W)
      → state_of s ≡ wait_imm_rsp
      → s.rest.sender.fun_busy_counter ≡ pos 0
      → fun_busy_event lib s ≡ finishes (of_code funbusy) s
  unfolding fun_busy_event busy_answer
  busy_answer-last s e c =
      let z = s.rest.sender.fun_busy_interval in
      let s1 = with_sender (dec_fun_busy_counter s.rest.sender) s in
      ap (λ x. fun_busy_event_at lib x s) e
      ∙ ap
          (λ z0.
            if not (ltb_ℤ (pos 0) z0)
            then finishes (of_code funbusy) s
            else lib.check_ipc (time_out lib (change_state funbusy_wait (lib.sleep z s1))))
          c

  -- One sleep and one send.
  abbrev round : Station W → W → W
  round s w = sent (slept s.rest.sender.fun_busy_interval w)

  -- What a station is after so many answers.
  HasTried : ℕ → Station W → Station W → Type 0
  HasTried n s r =
      (state_of r ≡ wait_imm_rsp)
      × (r.rest.sender.fun_busy_counter ≡ pos 0)
      × (r.rest.world ≡ rounds (round s) n s.rest.world)
      × (r.handler ≡ s.handler)

  busy_answers-HasTried :
      (n : ℕ) (s : Station W)
      → state_of s ≡ wait_imm_rsp
      → s.rest.sender.fun_busy_counter ≡ pos n
      → HasTried n s (busy_answers lib n s)
  unfolding HasTried
  busy_answers-HasTried zero s e c = (e, c, refl, refl)
  busy_answers-HasTried (suc n) s e c =
      let next = tried (pos n) (round s s.rest.world) s in
      subst (λ r. HasTried (suc n) s (busy_answers lib n r)) (sym (busy_answer-more n s e c))
        (busy_answers-HasTried n next refl refl)

  -- A command that is answered with FUNCTION BUSY is sent again after each interval, until it has
  -- been sent as often as there are attempts, n + 1; nobody is told of an answer before that. The
  -- answer behind the last attempt is the result FUNBUSY, nothing more is sent, and the sender is
  -- idle; for a library that accepts every command, and whose other calls change nothing.
  pub busy_answers-starts_waiting :
      (n : ℕ) (s0 : Station W)
      → s0.rest.sender.fun_busy_attempts ≡ pos (suc n)
      → let r = busy_answers lib n (starts_waiting s0) in
        let r1 = fun_busy_event lib r in
        (r.rest.world ≡ rounds (round s0) n s0.rest.world)
        × (r.handler ≡ s0.handler)
        × (state_of r1 ≡ idle)
        × (r1.rest.world ≡ r.rest.world)
        × (r1.handler ≡ set_result (of_code funbusy) s0.handler)
  unfolding HasTried change_state
  busy_answers-starts_waiting n s0 a =
      let s = starts_waiting s0 in
      let left = ap (λ z. z -ℤ pos 1) a ∙ -ℤ_one n in
      let (e, c, w, h) = busy_answers-HasTried n s refl left in
      let r = busy_answers lib n s in
      let end = busy_answer-last r e c in
      let ends = answers (of_code funbusy) r in
      (
        w,
        h,
        ap (λ q. state_of q) end ∙ change_state-state_of idle ends,
        ap (λ q. q.rest.world) end ∙ world-change_state idle ends,
        ap (λ q. q.handler) end
            ∙ handler-change_state idle ends
            ∙ ap (set_result (of_code funbusy)) h,
      )
