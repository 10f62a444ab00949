-- ===== src/Orders.antt =====
-- ops-parser-lib/src/main/cpp/sched/AM_auxFunctions.C: the orders of the scheduler as lines of text.
-- This file holds the data of an order (AM_Order.H), the numerals and the escapes; Write and Read
-- hold the two directions, and Dates the dates.
pub mod Write
pub mod Read
pub mod Escapes
pub mod Pieces
pub mod Members
pub mod RoundTrip
pub mod Dates
use operations_procedure_sup.Common.{
  ℕ, zero, suc, ◌+◌, ◌/◌, ◌%◌, Bool, true, false, [], ◌∷◌, ◌++◌, Option, none, some, Text, text_eq,
  ltb, ◌==◌, if◌then◌else◌, length, take, replicate, ◌-◌, ℤ, pos, negsuc, ◌+ℤ◌,
}
use operations_procedure_sup.Value.Words.{residue}

-- `AM_OrderData`. A `char*` that is NULL is `none`; its text holds no zero byte.
pub record AmOrderData : Type 0 where
  pub order_key : ℤ
  pub order_type : ℤ
  pub filename : Option Text
  pub network_element : Option Text
  pub user_id : Option Text
  pub status : ℤ
  pub output_dest : Option Text
  pub imm_routing : Option Text
  pub del_routing : Option Text
  pub synchro : ℤ
  pub mail_output_dest : Option Text
  pub file_output_dest : Option Text
  pub print_output_dest : Option Text
  pub start_time : ℤ
  pub interval_base : ℤ
  pub interval_split : ℤ
  pub mail_address : Option Text
  pub func_busy_interval : ℤ
  pub stop_cont_na : ℤ
  pub stop_cont_pe : ℤ
  pub mail_error : ℤ
  pub mail_result : ℤ
  pub out_msg_mail : ℤ
  pub parameters : Option Text
  pub host : Option Text
  pub ozt_label : Option Text
  pub ozt_display : Option Text
  pub tas_id : ℤ
  pub ozt_display_on : ℤ
  pub timestamp : ℤ

-- `AM_NOT_DEFINED`, `AM_IDLE` and `AM_NONE`.
abbrev pub am_not_defined : ℤ
am_not_defined = negsuc 98

abbrev pub am_idle : ℤ
am_idle = pos 2

abbrev pub am_none : ℤ
am_none = pos 5

-- Return values: `AM_OK`, `AM_ERROR`, `AM_ILLEGAL_ARGUMENT`, `AM_NO_MEMORY`.
abbrev pub am_ok : ℤ
am_ok = pos 0

abbrev pub am_error : ℤ
am_error = negsuc 0

abbrev pub am_illegal_argument : ℤ
am_illegal_argument = negsuc 1

abbrev pub am_no_memory : ℤ
am_no_memory = negsuc 5

-- What `stringToStruct` starts from.
abbrev pub cleared : AmOrderData
cleared = record {
  order_key = am_not_defined;
  order_type = am_not_defined;
  filename = none;
  network_element = none;
  user_id = none;
  status = am_idle;
  output_dest = none;
  imm_routing = none;
  del_routing = none;
  synchro = pos 0;
  mail_output_dest = none;
  file_output_dest = none;
  print_output_dest = none;
  start_time = pos 0;
  interval_base = am_none;
  interval_split = am_not_defined;
  mail_address = none;
  func_busy_interval = pos 0;
  stop_cont_na = am_not_defined;
  stop_cont_pe = am_not_defined;
  mail_error = am_not_defined;
  mail_result = am_not_defined;
  out_msg_mail = am_not_defined;
  parameters = none;
  host = none;
  ozt_label = none;
  ozt_display = none;
  tas_id = pos 0;
  ozt_display_on = pos 0;
  timestamp = pos 0;
}

-- `getAM_OrderDataObject`
unfoldable pub get_am_order_data_object : AmOrderData
get_am_order_data_object = record cleared { synchro = am_not_defined }

-- `deleteStrings`
unfoldable pub delete_strings : AmOrderData → AmOrderData
delete_strings d = record d {
  filename = none;
  network_element = none;
  user_id = none;
  output_dest = none;
  imm_routing = none;
  del_routing = none;
  mail_address = none;
  parameters = none;
  host = none;
  ozt_label = none;
  ozt_display = none;
  mail_output_dest = none;
  file_output_dest = none;
  print_output_dest = none;
}

-- `returnError`
unfoldable pub return_error : AmOrderData → ℤ × AmOrderData
unfolding delete_strings
return_error d = (am_no_memory, delete_strings d)

-- The first loop of `ltoa`: the digits, the last one first.
unfoldable pub low_digits : ℕ → ℕ → Text
low_digits zero x = []
low_digits (suc f) x =
    let rest = low_digits f (x / 10) in if ltb x 10 then (x + 48) ∷ [] else (x % 10 + 48) ∷ rest

-- The second loop, which turns them round.
unfoldable pub turned : Text → Text
turned [] = []
turned (c ∷ cs) = turned cs ++ c ∷ []

-- `ltoa`, and `itoa`, whose text is the same. More than 14 digits run over the end of `s`. The loop
-- passes over a negative number, whose only byte is `(char)(x + 48)`.
unfoldable pub ltoa : ℤ → Option Text
unfolding low_digits turned residue
ltoa (pos n) = if ltb n 100000000000000 then some (turned (low_digits 14 n)) else none
ltoa (negsuc n) = let c = residue 256 (negsuc n +ℤ pos 48) in some (if c == 0 then [] else c ∷ [])

-- `blank`
unfoldable pub blank : Option Text → ℕ → Text
blank none size = replicate size b' '
blank (some t) size =
    if ltb size (length t) then take size t else t ++ replicate (size - length t) b' '

-- `strchr(s, '#') != NULL`
unfoldable pub has_hash_mark : Text → Bool
has_hash_mark [] = false
has_hash_mark (c ∷ cs) = if c == b'#' then true else has_hash_mark cs

-- The loop of `isFoundHashMarkCrypt`.
unfoldable pub crypted : Text → Text
crypted [] = []
crypted (c ∷ cs) = if c == b'#' then b'%' ∷ (b'&' ∷ crypted cs) else c ∷ crypted cs

-- The text that `isFoundHashMarkCrypt` or else the caller appends.
unfoldable pub crypt : Text → Text
unfolding has_hash_mark crypted
crypt s = if has_hash_mark s then crypted s else s

-- The loop of `isFoundCryptedHashMarkDecrypt`: the byte behind a `%` is passed over, whatever it is.
unfoldable pub decrypted : Text → Text
decrypted [] = []
decrypted (c ∷ []) = if c == b'%' then [] else c ∷ []
decrypted (c ∷ (d ∷ ds)) =
    let next = decrypted (d ∷ ds) in
    let behind = decrypted ds in
    if c == b'%' then (if d == b'&' then b'#' ∷ behind else behind) else c ∷ next

-- `isFoundCryptedHashMarkDecrypt`
unfoldable pub decrypt : Text → Text
unfolding decrypted text_eq
decrypt s = if text_eq (decrypted s) (b' ' ∷ []) then [] else decrypted s
