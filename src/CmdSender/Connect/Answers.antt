-- ===== src/CmdSender/Connect/Answers.antt =====
-- OZT_CmdSender.C: when `connect` tells that there is a connection.
use operations_procedure_sup.Common.{
  Bool, true, false, not, ◌&&◌, Text, ◌≡◌, inl, inr, refl, arith, Bool-cases,
}
use operations_procedure_sup.ErrHandling.{filtered, is_ok}
use operations_procedure_sup.Tools.{Tools}
use operations_procedure_sup.CmdSender.Connect.{
  ReturnCode, okay, es_failed_discon, es_noreach, es_unknown, es_is_exclusive, es_noauth,
  es_failed_con, es_invalid_neid, es_invalid_sessionid, es_invalid_enmuid,
  es_could_not_connect_to_es, es_incorrect_side, es_incorrect_cp, es_side_not_allowed,
  es_unreasonable_value, Link, Network, set_connection_mode, connect, connect_answer,
  drops_connection, is_empty_name,
}

-- `c == CHA_Connection::OKAY`
abbrev pub succeeds : ReturnCode → Bool
succeeds okay = true
succeeds _ = false

module _ {W : Type 0} (net : Network W) (t : Tools) where
  -- While errors are checked, the answer is good only for `OKAY`.
  answer-succeeds :
      (ne_name : Text) (c : ReturnCode) (l : Link W)
      → l.station.rest.errors.checking ≡ true
      → is_ok (connect_answer net t ne_name c l).0.code ≡ succeeds c
  unfolding filtered is_ok set_connection_mode
  answer-succeeds n okay l on = ground arith
  answer-succeeds n es_failed_discon l on = ground arith
  answer-succeeds n es_noreach l on = ground arith
  answer-succeeds n es_unknown l on = ground arith
  answer-succeeds n es_is_exclusive l on = ground arith
  answer-succeeds n es_noauth l on = ground arith
  answer-succeeds n es_failed_con l on = ground arith
  answer-succeeds n es_invalid_neid l on = ground arith
  answer-succeeds n es_invalid_sessionid l on = ground arith
  answer-succeeds n es_invalid_enmuid l on = ground arith
  answer-succeeds n es_could_not_connect_to_es l on = ground arith
  answer-succeeds n es_incorrect_side l on = ground arith
  answer-succeeds n es_incorrect_cp l on = ground arith
  answer-succeeds n es_side_not_allowed l on = ground arith
  answer-succeeds n es_unreasonable_value l on = ground arith

  -- If errors are checked when the connection has answered, connect tells NO_PROBLEM exactly if the
  -- name of the network element is not empty and the connection answers OKAY.
  pub connect-succeeds :
      (ne_name : Text) (l : Link W)
      → let s = drops_connection net t l.station in
        (net.connects ne_name s).1.rest.errors.checking ≡ true
        → is_ok (connect net t ne_name l).0.code
          ≡ (not (is_empty_name t ne_name) && succeeds (net.connects ne_name s).0)
  unfolding connect is_ok
  connect-succeeds n l on =
      let s = drops_connection net t l.station in
      let lem =
        answer-succeeds n (net.connects n s).0 (record l { station = (net.connects n s).1 }) on in
      elim (Bool-cases (is_empty_name t n)) [ inl empty ↦ rw empty refl | inr named ↦ rw named lem ]
