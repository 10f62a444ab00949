-- ===== src/CmdSender/Shown.antt =====
-- A sender that is idle holds no response back: the receiver and the buffer at the end of a command.
use operations_procedure_sup.Common.{◌≡◌, sym, ap, true, [], Text, if◌then◌else◌}
use std.Path.{subst}
use operations_procedure_sup.RspReceiver.{flush_stored_spont_resp, flush_stored_del_resp}
use operations_procedure_sup.RspReceiver.Texts.{Kind}
use operations_procedure_sup.RspReceiver.Kept.{IsKept, flush_spont-IsKept, flush_del-IsKept}
use operations_procedure_sup.CmdSender.{
  idle, Station, with_sender, change_state, flush_stored_responses,
}

module _ {W : Type 0} where
  flush-on :
      (s : Station W)
      → s.rest.sender.ordered_on ≡ true
      → flush_stored_responses s ≡ (flush_stored_del_resp (flush_stored_spont_resp s)).1
  unfolding flush_stored_responses
  flush-on s e =
      ap
        (λ b.
          if b
          then (flush_stored_del_resp (flush_stored_spont_resp s)).1
          else flush_stored_spont_resp s)
        e

  -- Nothing is held back.
  abbrev pub HoldsNothing : Station W → Type 0
  HoldsNothing s = (s.receiver.stored_spont_rsp ≡ []) × (s.receiver.stored_del_rsp ≡ [])

  -- Where the buffer and the receiver have all the texts that came, a sender for which delayed
  -- responses are on and that becomes idle has them all in the buffer, in the order of each source,
  -- and the receiver holds nothing back.
  pub change_state-IsKept :
      (all : Kind → Text) (s : Station W)
      → s.rest.sender.ordered_on ≡ true
      → IsKept all s
      → IsKept all (change_state idle s) × HoldsNothing (change_state idle s)
  unfolding change_state
  change_state-IsKept all s on h =
      let s0 = with_sender (record s.rest.sender { sender_state = idle; wait_dl_rsp = 0 }) s in
      let s1 = flush_stored_spont_resp s0 in
      let (h1, e1) = flush_spont-IsKept all s0 h in
      let (h2, e2, e3) = flush_del-IsKept all s1 h1 e1 in
      subst (λ r. IsKept all r × HoldsNothing r) (sym (flush-on s0 on)) (h2, (e2, e3))
