-- ===== src/CmdSender/Replies.antt =====
-- What `checkReply` makes sure of when it accepts a reply.
use operations_procedure_sup.Common.{
  ℕ, ◌<◌, Bool, true, false, not, ◌&&◌, ◌≡◌, refl, sym, ap, ◌∙◌, ◌⊎◌, inl, inr, Bool-cases, List,
  [], ◌∷◌, Option, none, some, Option-cases, Text, ◌==◌, if◌then◌else◌, length,
}
use std.Path.{subst}
use operations_procedure_sup.ErrHandling.{
  OztResult, is_ok, of_code, of_info, no_problem, reply_check_fail,
}
use operations_procedure_sup.CmdRspBuf.{
  CmdRspBuf, append, scan, scan_from, scan_last_reply, scan_fail_loop, scan_for_fail_strings,
}
use operations_procedure_sup.CmdRspBuf.Search.{word_size}
use operations_procedure_sup.RspCatcher.{is_null}
use operations_procedure_sup.CmdSender.{CmdSender, Station, with_sender}
use operations_procedure_sup.CmdSender.Keys.{m_scan}
use operations_procedure_sup.CmdSender.Keys.Order.{AreInOrder, ArePlain, m_scan-AreInOrder}
use operations_procedure_sup.CmdSender.Commands.{
  check_reply, test_failed, toggled, keys_checked, fail_strings_checked,
}

-- The lines and the mark are left alone.
abbrev pub IsSameText : CmdRspBuf → CmdRspBuf → Type 0
IsSameText b b1 = (b1.store ≡ b.store) × (b1.mark ≡ b.mark)

scan_fail_loop-IsSameText :
    (strings : List Text) (real_end : ℕ) (result : OztResult) (b : CmdRspBuf)
    → IsSameText b (scan_fail_loop strings real_end result b).1
unfolding scan_fail_loop scan_last_reply
scan_fail_loop-IsSameText [] real_end result b = (refl, refl)
scan_fail_loop-IsSameText (s ∷ ss) real_end result b =
    let b1 = record b { end_of_last_reply = length b.store } in
    elim (Bool-cases ((scan_from s real_end b1).0 == 0)) [
      | inl miss ↦ rw miss (scan_fail_loop-IsSameText ss real_end result b1)
      | inr hit ↦ rw hit (refl, refl)
    ]

fail_strings_checked-IsSameText :
    (c : CmdSender) (result : OztResult) (b : CmdRspBuf)
    → IsSameText b (fail_strings_checked c result b).1
unfolding scan_for_fail_strings
fail_strings_checked-IsSameText c result b =
    let (result1, b1) = scan_for_fail_strings c.extra_fail_strings result c.fun_busy_counter b in
    let (s, m) = scan_fail_loop-IsSameText c.extra_fail_strings b.end_of_last_reply result _ in
    let (s1, m1) = scan_fail_loop-IsSameText c.extra_fail_strings b1.end_of_last_reply result1 _ in
    (s1 ∙ s, m1 ∙ m)

-- A string that is set is found behind the mark.
abbrev pub has : Text → CmdRspBuf → Bool
has key b = not (is_null key) && not ((scan key b).0 == 0)

-- The result behind the fail strings was good and the FAIL string is not there, or it was not and
-- the OK string is there.
abbrev pub IsGoodReply : CmdSender → OztResult → CmdRspBuf → Type 0
IsGoodReply c result b =
    ((is_ok result.code ≡ true) × (has c.fail_reply b ≡ false))
    ⊎ ((is_ok result.code ≡ false) × (has c.ok_reply b ≡ true))

chosen :
    (o f k : Bool) (r bad good : OztResult)
    → is_ok r.code ≡ o
    → is_ok bad.code ≡ false
    → is_ok (if o then (if f then bad else r) else if k then good else r).code ≡ true
    → ((o ≡ true) × (f ≡ false)) ⊎ ((o ≡ false) × (k ≡ true))
chosen true true k r bad good e n h = cc
chosen true false k r bad good e n h = inl (refl, refl)
chosen false f true r bad good e n h = inr (refl, refl)
chosen false f false r bad good e n h = cc

toggled-IsGoodReply :
    (c : CmdSender) (b : CmdRspBuf) (result : OztResult)
    → is_ok (toggled c b result).code ≡ true
    → IsGoodReply c result b
unfolding is_ok
toggled-IsGoodReply c b result h =
    chosen (is_ok result.code) (has c.fail_reply b) (has c.ok_reply b) result
      (of_info reply_check_fail c.fail_reply) (of_code no_problem) refl refl h

not_both : (r : OztResult) → is_ok r.code ≡ false → is_ok r.code ≡ true → ⊥
not_both r bad good = cc

-- What `checkReply` has found in a reply that it accepts.
abbrev pub IsAccepted : {W : Type 0} → OztResult → Station W → Type 0
IsAccepted result s =
    let c = s.rest.sender in
    let (result1, b) = fail_strings_checked c result s.buffer in
    IsGoodReply c result1 b × AreInOrder c.keys 0 0 s.buffer.store

module _ {W : Type 0} where
  -- A test of keys that leaves a good result good has found them.
  keys_checked-none :
      (result : OztResult) (s : Station W)
      → s.rest.sender.r_flag ≡ false
      → is_ok (keys_checked result s).0.code ≡ true
      → (m_scan s.buffer s.rest.sender).0 ≡ none
  unfolding m_scan is_ok append
  keys_checked-none result s r h = elim (Option-cases (m_scan s.buffer s.rest.sender).0) [
    | inl e ↦ e
    | inr (key, e) ↦
        let s1 = with_sender (m_scan s.buffer s.rest.sender).1 s in
        let code_of : Option Text → Bool → Bool = λ o flag.
          is_ok
            (elim o as (λ o. OztResult × Station W) [
              | none ↦ (result, s1)
              | some key ↦ (
                if flag then result else of_info reply_check_fail key,
                record s1 { buffer = append (test_failed key) false s1.buffer },
              )
            ]).0.code in
        let h1 = sym (ap (λ o. code_of o s.rest.sender.r_flag) e) ∙ h in
        let h2 = sym (ap (code_of (some key)) r) ∙ h1 in cc
  ]

  -- `checkReply` that answers NO_PROBLEM while @R is off, for a reply of less than 2 ^ 64 lines that
  -- starts at the mark 0, and keys other than NOT ACCEPTED: the result of the command was good, also
  -- behind the additional fail strings, and the FAIL string is not in the reply, or the result was
  -- not good and the OK string is in it; and the reply holds the keys in their order.
  pub check_reply-IsAccepted :
      (result : OztResult) (s : Station W)
      → s.buffer.mark ≡ 0
      → length s.buffer.store < word_size
      → ArePlain s.rest.sender.keys
      → s.rest.sender.r_flag ≡ false
      → is_ok (check_reply result s).0.code ≡ true
      → IsAccepted result s
  unfolding check_reply
  check_reply-IsAccepted result s start fits plain r h =
      let c = s.rest.sender in
      let (result1, b) = fail_strings_checked c result s.buffer in
      let (lines, mark) = fail_strings_checked-IsSameText c result s.buffer in
      let s1 : Station W = record s { buffer = b } in
      let result2 = toggled c b result1 in
      let code_of : Bool → Bool =
        λ t. is_ok (if t then keys_checked result2 s1 else (result2, s1)).0.code in
      let fit = subst (λ ls. length ls < word_size) (sym lines) fits in
      elim (Bool-cases (is_ok result2.code)) [
        | inr bad ↦ let h1 = sym (ap code_of bad) ∙ h in absurd (not_both result2 bad h1)
        | inl good ↦
            let found = keys_checked-none result2 s1 r (sym (ap code_of good) ∙ h) in
            let order = m_scan-AreInOrder b c (mark ∙ start) fit plain found in
            (toggled-IsGoodReply c b result1 good, subst (AreInOrder c.keys 0 0) lines order.0)
      ]
