-- ===== src/RspReceiver/Kept.antt =====
-- The texts that the receiver has been given: in the buffer, or held back.
use operations_procedure_sup.Common.{
  Bool, true, false, ◌≡◌, refl, sym, ◌∙◌, inl, inr, Bool-cases, List, [], ◌∷◌, ◌++◌, Text,
}
use std.Path.{subst}
use mathlib.Core.List.{append_assoc, append-nil}
use operations_procedure_sup.ErrHandling.{OztResult, is_ok}
use operations_procedure_sup.CmdRspBuf.{append, mark_end_of_rsp, changed}
use operations_procedure_sup.RspCatcher.{is_null}
use operations_procedure_sup.RspReceiver.{
  Desk, log_on_asked, log_on_answered, log_off, flush_stored_del_resp, flush_stored_spont_resp,
  ends_stored, update_from_imm_receiver, update_from_del_receiver, update_from_spont_receiver,
  is_between,
}
use operations_procedure_sup.RspReceiver.Texts.{
  Kind, imm, del, spont, where_from, HasNoZero, IsKeptIn, grown, IsKeptIn-shown, IsKeptIn-del,
  IsKeptIn-spont, flushed-del, flushed-spont, is_null-nil,
}

-- A text comes in, `logOff` is called, or `logOn` is called and answered.
pub data Event : Type 0 where
  comes : Kind → Text → Bool → Event
  off asked : Event
  answered : OztResult → Event

abbrev pub happens : {W : Type 0} → Event → Desk W → Desk W
happens (comes imm text complete) d = update_from_imm_receiver text d
happens (comes del text complete) d = update_from_del_receiver text complete d
happens (comes spont text complete) d = update_from_spont_receiver text complete d
happens off d = (log_off d).1
happens asked d = log_on_asked d
happens (answered result) d = log_on_answered result d

abbrev pub happen : {W : Type 0} → List Event → Desk W → Desk W
happen [] d = d
happen (e ∷ es) d = happen es (happens e d)

-- What has come in from a source.
abbrev pub came : Kind → Event → Text
came k (comes from text complete) = where_from k from text
came k _ = []

unfoldable pub all_came : Kind → List Event → Text
all_came k [] = []
all_came k (e ∷ es) = came k e ++ all_came k es

-- No text that comes in has a zero byte.
abbrev pub HaveNoZero : List Event → Type 0
HaveNoZero [] = Unit
HaveNoZero (comes from text complete ∷ es) = HasNoZero text × HaveNoZero es
HaveNoZero (off ∷ es) = HaveNoZero es
HaveNoZero (asked ∷ es) = HaveNoZero es
HaveNoZero (answered result ∷ es) = HaveNoZero es

-- What the desk holds of each source is all that came.
abbrev pub IsKept : {W : Type 0} → (Kind → Text) → Desk W → Type 0
IsKept all d =
    IsKeptIn all d.buffer.store d.receiver.stored_del_rsp d.receiver.stored_spont_rsp
      d.receiver.logging_on

module _ {W : Type 0} where
  pub flush_spont-IsKept :
      (all : Kind → Text) (d : Desk W)
      → IsKept all d
      → let d1 = flush_stored_spont_resp d in IsKept all d1 × (d1.receiver.stored_spont_rsp ≡ [])
  unfolding flush_stored_spont_resp
  flush_spont-IsKept all d h = elim (Bool-cases (is_null d.receiver.stored_spont_rsp)) [
    | inl e ↦ rw e (h, is_null-nil d.receiver.stored_spont_rsp e)
    | inr e ↦ rw e (flushed-spont all d.buffer _ _ _ h, refl)
  ]

  pub flush_del-IsKept :
      (all : Kind → Text) (d : Desk W)
      → IsKept all d
      → d.receiver.stored_spont_rsp ≡ []
      → let d1 = (flush_stored_del_resp d).1 in
        IsKept all d1 × (d1.receiver.stored_spont_rsp ≡ []) × (d1.receiver.stored_del_rsp ≡ [])
  unfolding flush_stored_del_resp
  flush_del-IsKept all d h s = elim (Bool-cases (is_null d.receiver.stored_del_rsp)) [
    | inl e ↦ rw e (h, s, is_null-nil d.receiver.stored_del_rsp e)
    | inr e ↦ rw e (flushed-del all d.buffer _ _ _ h, s, refl)
  ]

  ends_stored-IsKept :
      (all : Kind → Text) (d : Desk W)
      → IsKept all d
      → d.receiver.stored_spont_rsp ≡ []
      → d.receiver.stored_del_rsp ≡ []
      → IsKept all (ends_stored d)
  unfolding ends_stored mark_end_of_rsp changed
  ends_stored-IsKept all d ((log, h, a), cd, cs, n) se de =
      elim (Bool-cases d.receiver.a_complete_rsp_stored) [
        | inl e ↦ rw e ((log, h, a), cd, cs, λ off. (de, se))
        | inr e ↦ rw e ((log, h, a), cd, cs, λ off. (de, se))
      ]

  log_off-on :
      (d : Desk W)
      → d.receiver.logging_on ≡ true
      → (log_off d).1 ≡ ends_stored (flush_stored_del_resp (flush_stored_spont_resp d)).1
  unfolding log_off
  log_off-on d e = rw e refl

  log_off-off : (d : Desk W) → d.receiver.logging_on ≡ false → (log_off d).1 ≡ d
  unfolding log_off
  log_off-off d e = rw e refl

  off-IsKept : (all : Kind → Text) (d : Desk W) → IsKept all d → IsKept all (log_off d).1
  off-IsKept all d h = elim (Bool-cases d.receiver.logging_on) [
    | inl e ↦
        let (h1, s1) = flush_spont-IsKept all d h in
        let (h2, s2, d2) = flush_del-IsKept all (flush_stored_spont_resp d) h1 s1 in
        let d3 = (flush_stored_del_resp (flush_stored_spont_resp d)).1 in
        subst (IsKept all) (sym (log_off-on d e)) (ends_stored-IsKept all d3 h2 s2 d2)
    | inr e ↦ subst (IsKept all) (sym (log_off-off d e)) h
  ]

  asked-IsKept : (all : Kind → Text) (d : Desk W) → IsKept all d → IsKept all (log_on_asked d)
  unfolding log_on_asked
  asked-IsKept all d ((log, h, a), cd, cs, n) = elim (Bool-cases d.receiver.logging_on) [
    | inl e ↦ rw e ((log, h, a), cd, cs, λ off. cc)
    | inr e ↦ elim (Bool-cases (is_between d.receiver)) [
      | inl f ↦ rw e (rw f ((log, h, a), cd, cs, λ off. cc))
      | inr f ↦ rw e (rw f ((log, h, a), cd, cs, λ off. n e))
    ]
  ]

  answered-IsKept :
      (all : Kind → Text) (r : OztResult) (d : Desk W)
      → IsKept all d
      → IsKept all (log_on_answered r d)
  unfolding log_on_answered is_ok
  answered-IsKept all r d ((log, h, a), cd, cs, n) = elim (Bool-cases (is_ok r.code)) [
    | inl e ↦ rw e ((log, h, a), cd, cs, λ off. cc)
    | inr e ↦ rw e ((log, h, a), cd, cs, n)
  ]

  del-IsKept :
      (all : Kind → Text) (t : Text) (complete : Bool) (d : Desk W)
      → HasNoZero t
      → IsKept all d
      → IsKept (grown all del t) (update_from_del_receiver t complete d)
  unfolding update_from_del_receiver mark_end_of_rsp changed
  del-IsKept all t complete d clean h =
      let r = d.receiver in
      elim (Bool-cases r.logging_on) [
        | inl e ↦
            let k = subst (IsKeptIn all d.buffer.store r.stored_del_rsp r.stored_spont_rsp) e h in
            rw e (IsKeptIn-del all d.buffer.store r.stored_del_rsp r.stored_spont_rsp t clean k)
        | inr e ↦
            let k = IsKeptIn-shown all d.buffer _ _ r.logging_on del t clean (h.3 e).0 h in
            let lines = (append t false d.buffer).store in
            let shown =
              subst (IsKeptIn (grown all del t) lines r.stored_del_rsp r.stored_spont_rsp) e k in
            elim (Bool-cases complete) [ inl f ↦ rw e (rw f shown) | inr f ↦ rw e (rw f shown) ]
      ]

  spont-IsKept :
      (all : Kind → Text) (t : Text) (complete : Bool) (d : Desk W)
      → HasNoZero t
      → IsKept all d
      → IsKept (grown all spont t) (update_from_spont_receiver t complete d)
  unfolding update_from_spont_receiver mark_end_of_rsp changed
  spont-IsKept all t complete d clean h =
      let r = d.receiver in
      elim (Bool-cases r.logging_on) [
        | inl e ↦
            let k = subst (IsKeptIn all d.buffer.store r.stored_del_rsp r.stored_spont_rsp) e h in
            rw e (IsKeptIn-spont all d.buffer.store r.stored_del_rsp r.stored_spont_rsp t clean k)
        | inr e ↦
            let k = IsKeptIn-shown all d.buffer _ _ r.logging_on spont t clean (h.3 e).1 h in
            let lines = (append t false d.buffer).store in
            let shown =
              subst (IsKeptIn (grown all spont t) lines r.stored_del_rsp r.stored_spont_rsp) e k in
            elim (Bool-cases complete) [ inl f ↦ rw e (rw f shown) | inr f ↦ rw e (rw f shown) ]
      ]

  imm-IsKept :
      (all : Kind → Text) (t : Text) (d : Desk W)
      → HasNoZero t
      → IsKept all d
      → IsKept (grown all imm t) (update_from_imm_receiver t d)
  unfolding update_from_imm_receiver
  imm-IsKept all t d clean h = IsKeptIn-shown all d.buffer _ _ _ imm t clean refl h

  pub IsKept-same :
      (f g : Kind → Text) (d : Desk W) → ((k : Kind) → f k ≡ g k) → IsKept f d → IsKept g d
  IsKept-same f g d e ((log, h, a), cd, cs, n) = ((log, h, λ k. a k ∙ e k), cd, cs, n)

  happens-IsKept :
      (all : Kind → Text) (e : Event) (es : List Event) (d : Desk W)
      → HaveNoZero (e ∷ es)
      → IsKept all d
      → IsKept (λ k. all k ++ came k e) (happens e d) × HaveNoZero es
  happens-IsKept all (comes imm t c) es d clean h = (imm-IsKept all t d clean.0 h, clean.1)
  happens-IsKept all (comes del t c) es d clean h = (del-IsKept all t c d clean.0 h, clean.1)
  happens-IsKept all (comes spont t c) es d clean h = (spont-IsKept all t c d clean.0 h, clean.1)
  happens-IsKept all off es d clean h =
      (IsKept-same all _ (log_off d).1 (λ k. sym (append-nil (all k))) (off-IsKept all d h), clean)
  happens-IsKept all asked es d clean h = (
    IsKept-same all _ (log_on_asked d) (λ k. sym (append-nil (all k))) (asked-IsKept all d h),
    clean,
  )
  happens-IsKept all (answered r) es d clean h = (
    IsKept-same all _ (log_on_answered r d) (λ k. sym (append-nil (all k)))
        (answered-IsKept all r d h),
    clean,
  )

  -- No text is lost, doubled or moved: where the texts in the buffer and those held back are all
  -- that has come from each of the three sources, in the order in which they came, and texts
  -- without a zero byte come, and commands begin and end, in any order, they still are, with the
  -- new texts; and while no command is answered, nothing is held back.
  pub happen-IsKept :
      (all : Kind → Text) (es : List Event) (d : Desk W)
      → HaveNoZero es
      → IsKept all d
      → IsKept (λ k. all k ++ all_came k es) (happen es d)
  unfolding all_came
  happen-IsKept all [] d clean h = IsKept-same all _ d (λ k. sym (append-nil (all k))) h
  happen-IsKept all (e ∷ es) d clean h =
      let (now, later) = happens-IsKept all e es d clean h in
      let then_ = happen-IsKept (λ k. all k ++ came k e) es (happens e d) later now in
      IsKept-same _ _ (happen (e ∷ es) d) (λ k. append_assoc (all k) (came k e) (all_came k es))
        then_
