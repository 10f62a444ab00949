-- ===== src/SourceInfo/Patterns.antt =====
-- The regular expressions of OZT_SourceInfo.C.
use operations_procedure_sup.Common.{
  ℕ, ◌-◌, true, false, List, [], ◌∷◌, ◌++◌, String, Text, codes, map,
}
use operations_procedure_sup.Tools.{CharClass, Piece, one, star, plus, dollar, Pattern}

-- `[\t ]`
abbrev pub blank : CharClass
blank = record { ranges = (b'\t', b'\t') ∷ (b' ', b' ') ∷ []; negated = false }

-- `[^\t ]`
abbrev not_blank : CharClass
not_blank = record { ranges = (b'\t', b'\t') ∷ (b' ', b' ') ∷ []; negated = true }

abbrev pub just : ℕ → CharClass
just c = record { ranges = (c, c) ∷ []; negated = false }

-- `[eE]`, for a lower case letter.
abbrev either_case : ℕ → CharClass
either_case c = record { ranges = (c, c) ∷ (c - 32, c - 32) ∷ []; negated = false }

abbrev pub word : Text → List Piece
word w = map (λ c. one (either_case c)) w

-- `^[\t ]*@[\t ]*` and a word.
abbrev command : String → List Piece
command w = star blank ∷ one (just b'@') ∷ star blank ∷ word (codes w)

abbrev anchored : List Piece → Pattern
anchored ps = record { from_start = true; pieces = ps; to_end = false }

abbrev at_end : List Piece → Pattern
at_end ps = record { from_start = false; pieces = ps; to_end = true }

-- `^[\t ]*@[\t ]*[eE][nN][dD][iI][fF][\t ]*`
abbrev pub endif_scanner : Pattern
endif_scanner = anchored (command "endif" ++ star blank ∷ [])

-- `[tT][hH][eE][nN]$`
abbrev pub then_scanner : Pattern
then_scanner = at_end (word (codes "then"))

-- `^[\t ]*@[\t ]*[eE][lL][sS][eE][\t ]*$`
abbrev pub else_line_scanner : Pattern
else_line_scanner = record {
  from_start = true;
  pieces = command "else" ++ star blank ∷ [];
  to_end = true;
}

-- `^[\t ]*@[\t ]*[eE][lL][sS][eE][\t ]+`
abbrev pub else_scanner : Pattern
else_scanner = anchored (command "else" ++ plus blank ∷ [])

-- `^[\t ]*@[\t ]*[eE][nN][dD][sS][wW][iI][tT][cC][hH][\t ]*`
abbrev pub endswitch_scanner : Pattern
endswitch_scanner = anchored (command "endswitch" ++ star blank ∷ [])

-- `^[\t ]*@[\t ]*[cC][aA][sS][eE][\t ]+[A-Za-z0-9]+[\t ]*`
abbrev pub case_scanner : Pattern
case_scanner = anchored (
    command "case"
    ++ plus blank
      ∷ plus (record { ranges = (b'A', b'Z') ∷ (b'a', b'z') ∷ (b'0', b'9') ∷ []; negated = false })
      ∷ star blank
      ∷ [])

-- `^[\t ]*@[\t ]*[dD][eE][fF][aA][uU][lL][tT][\t ]*`
abbrev pub default_scanner : Pattern
default_scanner = anchored (command "default" ++ star blank ∷ [])

-- `^[\t ]*@[\t ]*[nN][eE][xX][tT][\t ]+`
abbrev pub next_scanner : Pattern
next_scanner = anchored (command "next" ++ plus blank ∷ [])

-- `^[ \t]*[@/!]`
abbrev pub script_cmd_checker : Pattern
script_cmd_checker = anchored (
    star blank
    ∷ one (record { ranges = (b'@', b'@') ∷ (b'/', b'/') ∷ (b'!', b'!') ∷ []; negated = false })
    ∷ [])

-- `,[ \t]*$`
abbrev pub continue_checker : Pattern
continue_checker = at_end (one (just b',') ∷ star blank ∷ [])

-- `[&-,][ \t]*$`: the bytes from `&` to `,`.
abbrev pub host_continue_checker : Pattern
host_continue_checker =
    at_end (one (record { ranges = (b'&', b',') ∷ []; negated = false }) ∷ star blank ∷ [])

-- `^[\t ]*!`
abbrev pub mml_checker : Pattern
mml_checker = anchored (star blank ∷ one (just b'!') ∷ [])

-- `^[\t ]*!$$$$!`
abbrev pub mml_checker2 : Pattern
mml_checker2 =
    anchored
      (star blank ∷ one (just b'!') ∷ dollar ∷ dollar ∷ dollar ∷ dollar ∷ one (just b'!') ∷ [])

-- `^[\t ]*@[\t ]*LABEL[\t ]+[^\t ]`
abbrev pub label_reg_exp : Pattern
label_reg_exp = anchored (
    star blank
    ∷ one (just b'@')
    ∷ star blank
    ∷ (map (λ c. one (just c)) (codes "LABEL") ++ plus blank ∷ one not_blank ∷ []))

-- `^[^\t ]*`
abbrev pub trim_reg_exp : Pattern
trim_reg_exp = anchored (star not_blank ∷ [])
