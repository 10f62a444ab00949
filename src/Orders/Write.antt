-- ===== src/Orders/Write.antt =====
-- `AM_auxFunctions::structToString`: a text for each member, a `#` behind each, and a `;`.
use operations_procedure_sup.Common.{
  ◌||◌, List, [], ◌∷◌, ◌++◌, Option, none, some, Text, if◌then◌else◌, pos, eqb_ℤ,
}
use operations_procedure_sup.Orders.{AmOrderData, ltoa, crypt}

-- A blank, which stands for a text that is empty.
abbrev pub blank_piece : Text
blank_piece = b' ' ∷ []

-- A text in front of its `#`.
unfoldable pub text_piece : Text → Text
text_piece [] = blank_piece
text_piece (c ∷ cs) = crypt (c ∷ cs)

-- A member that is not tested for NULL: `strchr` of NULL is undefined.
abbrev pub member_piece : Option Text → Option Text
member_piece none = none
member_piece (some s) = some (text_piece s)

-- A member that is tested.
abbrev pub tested_piece : Option Text → Option Text
tested_piece none = some blank_piece
tested_piece (some s) = some (text_piece s)

abbrev pub header_pieces : AmOrderData → List (Option Text)
header_pieces d =
    ltoa d.order_key
    ∷ (ltoa d.order_type
        ∷ (member_piece d.filename
            ∷ (member_piece d.user_id
                ∷ (ltoa d.status
                    ∷ (ltoa d.start_time
                        ∷ (ltoa d.interval_base
                            ∷ (ltoa d.interval_split
                                ∷ (member_piece d.host
                                    ∷ (ltoa d.tas_id ∷ (ltoa d.timestamp ∷ []))))))))))

-- An MML file.
abbrev pub cfi_pieces : AmOrderData → List (Option Text)
cfi_pieces d =
    member_piece d.network_element
    ∷ (member_piece d.output_dest
        ∷ (member_piece d.mail_address
            ∷ (ltoa d.func_busy_interval
                ∷ (ltoa d.stop_cont_na
                    ∷ (ltoa d.stop_cont_pe
                        ∷ (ltoa d.mail_error ∷ (ltoa d.mail_result ∷ (ltoa d.synchro ∷ []))))))))

-- A system command file or a script.
abbrev pub script_pieces : AmOrderData → List (Option Text)
script_pieces d = ltoa d.out_msg_mail ∷ (member_piece d.parameters ∷ [])

-- An operations procedure.
abbrev pub ops_pieces : AmOrderData → List (Option Text)
ops_pieces d =
    some blank_piece
    ∷ (member_piece d.network_element
        ∷ (member_piece d.mail_address
            ∷ (member_piece d.ozt_label
                ∷ ((if eqb_ℤ d.ozt_display_on (pos 0)
                      then some blank_piece
                      else member_piece d.ozt_display)
                    ∷ (tested_piece d.mail_output_dest
                        ∷ (tested_piece d.file_output_dest
                            ∷ (tested_piece d.print_output_dest ∷ [])))))))

abbrev pub type_pieces : AmOrderData → List (Option Text)
type_pieces d =
    if eqb_ℤ d.order_type (pos 0)
    then cfi_pieces d
    else if eqb_ℤ d.order_type (pos 1) || eqb_ℤ d.order_type (pos 3)
    then script_pieces d
    else if eqb_ℤ d.order_type (pos 2)
    then ops_pieces d
    else []

-- All pieces, if none of them fails.
unfoldable pub collect : List (Option Text) → Option (List Text)
collect [] = some []
collect (none ∷ os) = none
collect (some p ∷ os) = elim (collect os) [ none ↦ none | some ps ↦ some (p ∷ ps) ]

-- The pieces with their `#`, and the `;`.
unfoldable pub joined : List Text → Text
joined [] = b';' ∷ []
joined (p ∷ ps) = p ++ b'#' ∷ joined ps

-- `structToString`; `none` is a NULL that is read or a number of too many digits.
unfoldable pub struct_to_string : AmOrderData → Option Text
unfolding collect joined text_piece
struct_to_string d = elim (collect (header_pieces d ++ type_pieces d)) [
  | none ↦ none
  | some ps ↦ some (joined ps)
]
