-- ===== src/Orders/Read.antt =====
-- `AM_auxFunctions::stringToStruct`: the tokens between the `#` of a line, in order.
use operations_procedure_sup.Common.{
  ◌||◌, List, [], ◌∷◌, ◌++◌, Option, none, some, Text, text_eq, codes, ◌==◌, if◌then◌else◌, ℤ, pos,
  eqb_ℤ,
}
use operations_procedure_sup.Value.Convert.{atol, atoi}
use operations_procedure_sup.Value.Words.{residue}
use operations_procedure_sup.Orders.{
  AmOrderData, cleared, am_ok, am_illegal_argument, decrypt, return_error,
}

-- A byte in front of a token, or as a token of its own.
abbrev pub on_token : Text → List Text → Text → List Text
on_token c ts [] = c ∷ ts
on_token c [] (d ∷ ds) = c ∷ []
on_token c (t ∷ ts) (d ∷ ds) = if d == b'#' then c ∷ (t ∷ ts) else (c ++ t) ∷ ts

-- What `strtok` with "#" answers, call by call until it answers NULL.
unfoldable pub tokens : Text → List Text
tokens [] = []
tokens (c ∷ cs) = if c == b'#' then tokens cs else on_token (c ∷ []) (tokens cs) cs

-- What a token is put into.
abbrev pub Setter : Type 0
Setter = Text → AmOrderData → AmOrderData

abbrev pub text_of : Text → Option Text
text_of aux = some (decrypt aux)

abbrev pub header_setters : List Setter
header_setters =
    (λ aux d. record d { order_key = atol aux })
    ∷ ((λ aux d. record d { order_type = atoi aux })
        ∷ ((λ aux d. record d { filename = text_of aux })
            ∷ ((λ aux d. record d { user_id = text_of aux })
                ∷ ((λ aux d. record d { status = atoi aux })
                    ∷ ((λ aux d. record d { start_time = atol aux })
                        ∷ ((λ aux d. record d { interval_base = atoi aux })
                            ∷ ((λ aux d. record d { interval_split = atoi aux })
                                ∷ ((λ aux d. record d { host = text_of aux })
                                    ∷ ((λ aux d. record d { tas_id = atoi aux })
                                        ∷ ((λ aux d. record d { timestamp = atol aux })
                                            ∷ []))))))))))

-- `funcBusyInterval` is an `unsigned int`.
abbrev pub cfi_setters : List Setter
cfi_setters =
    (λ aux d. record d { network_element = text_of aux })
    ∷ ((λ aux d. record d { output_dest = text_of aux })
        ∷ ((λ aux d. record d { mail_address = text_of aux })
            ∷ ((λ aux d. record d { func_busy_interval = pos (residue 4294967296 (atoi aux)) })
                ∷ ((λ aux d. record d { stop_cont_na = atoi aux })
                    ∷ ((λ aux d. record d { stop_cont_pe = atoi aux })
                        ∷ ((λ aux d. record d { mail_error = atoi aux })
                            ∷ ((λ aux d. record d { mail_result = atoi aux })
                                ∷ ((λ aux d. record d { synchro = atoi aux }) ∷ []))))))))

abbrev pub script_setters : List Setter
script_setters =
    (λ aux d. record d { out_msg_mail = atoi aux })
    ∷ ((λ aux d. record d { parameters = text_of aux }) ∷ [])

-- "0" stands for no network element.
abbrev pub element_of : Text → Option Text
element_of aux = some (if text_eq (decrypt aux) (codes "0") then [] else decrypt aux)

abbrev pub display_on : Text → AmOrderData → ℤ
display_on aux d = if text_eq (decrypt aux) [] then d.ozt_display_on else pos 1

abbrev pub ops_setters : List Setter
ops_setters =
    (λ aux d. d)
    ∷ ((λ aux d. record d { network_element = element_of aux })
        ∷ ((λ aux d. record d { mail_address = text_of aux })
            ∷ ((λ aux d. record d { ozt_label = text_of aux })
                ∷ ((λ aux d. record d {
                  ozt_display = text_of aux;
                  ozt_display_on = display_on aux d;
                })
                    ∷ ((λ aux d. record d { mail_output_dest = text_of aux })
                        ∷ ((λ aux d. record d { file_output_dest = text_of aux }) ∷ []))))))

-- A token for each setter and then `rest`; without a token, `returnError`.
unfoldable pub read_members :
    List Setter
    → (AmOrderData → List Text → ℤ × AmOrderData)
    → AmOrderData
    → List Text
    → ℤ × AmOrderData
unfolding return_error
read_members [] rest d ts = rest d ts
read_members (f ∷ fs) rest d [] = return_error d
read_members (f ∷ fs) rest d (aux ∷ ts) = read_members fs rest (f aux d) ts

-- The last test.
abbrev pub closed_by : Text → AmOrderData → ℤ × AmOrderData
closed_by aux d = if text_eq aux (codes ";") then (am_ok, d) else return_error d

-- The next token is the last.
abbrev pub close : AmOrderData → List Text → ℤ × AmOrderData
close d [] = return_error d
close d (aux ∷ ts) = closed_by aux d

-- The printer, which may be missing.
abbrev pub close_ops : AmOrderData → List Text → ℤ × AmOrderData
close_ops d [] = return_error d
close_ops d (aux ∷ ts) =
    if text_eq aux (codes ";")
    then (am_ok, record d { print_output_dest = some [] })
    else close (record d { print_output_dest = text_of aux }) ts

-- Behind the header, whose last token is `aux`.
abbrev pub read_type : Text → AmOrderData → List Text → ℤ × AmOrderData
read_type aux d ts =
    if eqb_ℤ d.order_type (pos 0)
    then read_members cfi_setters close d ts
    else if eqb_ℤ d.order_type (pos 1) || eqb_ℤ d.order_type (pos 3)
    then read_members script_setters close d ts
    else if eqb_ℤ d.order_type (pos 2)
    then read_members ops_setters close_ops d ts
    else closed_by aux d

-- The token of the time stamp.
abbrev pub last_of_header : List Text → Text
last_of_header (a ∷ (b ∷ (c ∷ (d ∷ (e ∷ (f ∷ (g ∷ (h ∷ (i ∷ (j ∷ (k ∷ ts))))))))))) = k
last_of_header _ = []

-- `stringToStruct`, with the pointer that may be NULL.
unfoldable pub string_to_struct : Text → Option AmOrderData → ℤ × Option AmOrderData
unfolding tokens read_members decrypt text_eq return_error
string_to_struct s none = (am_illegal_argument, none)
string_to_struct s (some old) =
    let ts = tokens s in
    let (code, d) = read_members header_setters (read_type (last_of_header ts)) cleared ts in
    (code, some d)
