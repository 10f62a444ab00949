-- ===== src/CmdSender/Keys.antt =====
-- OZT_CmdSender.C: the strings of `@/w1,...,wn/` that a response must hold in their order.
pub mod Order
pub mod Words
use operations_procedure_sup.Common.{
  ℕ, zero, suc, ◌+◌, ◌-◌, ◌%◌, ◌&&◌, ◌||◌, List, [], ◌∷◌, ◌++◌, Option, none, some, Text, ◌==◌, leb,
  if◌then◌else◌,
}
use operations_procedure_sup.Misc.{trim}
use operations_procedure_sup.ErrHandling.{
  OztResult, of_code, no_problem, syntax_err, missing_parameters,
}
use operations_procedure_sup.CmdRspBuf.Search.{word_size}
use operations_procedure_sup.CmdRspBuf.{CmdRspBuf, scan_from}
use operations_procedure_sup.CmdSender.{CmdSender, clear_scan_str}

-- The text in front of a `/` at the end, if there is one.
abbrev pub without_slash : Text → Option Text
without_slash [] = none
without_slash (c ∷ []) = if c == b'/' then some [] else none
without_slash (c ∷ (d ∷ ds)) = elim (without_slash (d ∷ ds)) [ none ↦ none | some r ↦ some (c ∷ r) ]

-- `index(",", start)` in the text behind `start`: the text up to the comma and the one behind.
unfoldable pub at_comma : Text → Option (Text × Text)
at_comma [] = none
at_comma (c ∷ cs) = elim (at_comma cs) [
  | none ↦ if c == b',' then some ([], cs) else none
  | some r ↦ if c == b',' then some ([], cs) else some (c ∷ r.0, r.1)
]

-- The loop of `setScanStr` on the text behind `start`, on fuel: the keys that it appends.
unfoldable pub keys_loop : ℕ → Text → Option (List Text)
unfolding at_comma trim
keys_loop zero text = none
keys_loop (suc f) [] = some []
keys_loop (suc f) (c ∷ cs) = elim (at_comma (c ∷ cs)) [
  | none ↦ some (trim (c ∷ cs) ∷ [])
  | some r ↦ elim (keys_loop f r.1) [ none ↦ none | some ks ↦ some (trim r.0 ∷ ks) ]
]

-- `setScanStr`, on fuel.
unfoldable pub set_scan_str : ℕ → Text → CmdSender → Option (OztResult × CmdSender)
unfolding keys_loop trim
set_scan_str f in_str c = elim (without_slash in_str) [
  | none ↦ some (of_code syntax_err, c)
  | some my_str ↦ elim (trim my_str) [
    | [] ↦ some (of_code missing_parameters, c)
    | d ∷ ds ↦ elim (keys_loop f (d ∷ ds)) [
      | none ↦ none
      | some ks ↦ some (of_code no_problem, record c { keys = c.keys ++ ks })
    ]
  ]
]

-- The loop of `mScan`: the first key that is not found behind the one before it. Each search
-- starts at the line `index - 1`, and `index` is counted from the mark.
unfoldable pub scan_keys : List Text → ℕ → ℕ → ℕ → CmdRspBuf → Option Text
unfolding scan_from
scan_keys [] index last_index last_pos b = none
scan_keys (k ∷ ks) index last_index last_pos b =
    let (index1, p) = scan_from k ((index + word_size - 1) % word_size) b in
    let rest = scan_keys ks index1 index1 p b in
    if index1 == 0 || leb p last_pos && index1 == last_index then some k else rest

-- `mScan`: the key that fails, and the sender, which forgets its keys.
unfoldable pub m_scan : CmdRspBuf → CmdSender → Option Text × CmdSender
unfolding scan_keys
m_scan b c = (scan_keys c.keys 1 0 0 b, clear_scan_str c)
