-- ===== src/RspReceiver/Texts.antt =====
-- The texts of three sources in a buffer and held back, whatever receives them.
use operations_procedure_sup.Common.{
  Bool, true, false, ◌≡◌, refl, sym, ap, ◌∙◌, List, [], ◌∷◌, ◌++◌, Text, ◌==◌,
}
use mathlib.Core.List.{append_assoc, append-nil}
use operations_procedure_sup.CmdRspBuf.{CmdRspBuf, append}
use operations_procedure_sup.CmdRspBuf.Split.Laws.{split_lines}
use operations_procedure_sup.CmdRspBuf.Search.{c_str}
use operations_procedure_sup.CmdRspBuf.Received.{Holds, call-Holds, call, received, chunk}
use operations_procedure_sup.RspCatcher.{is_null}

-- The three sources of a text.
pub data Kind : Type 0 where
  imm del spont : Kind

-- The texts in the buffer, in order and each with its source.
abbrev pub Log : Type 0
Log = List (Kind × Text)

unfoldable pub text_of : Log → Text
text_of [] = []
text_of (l ∷ ls) = l.1 ++ text_of ls

-- A text where its source is the one that is asked for.
abbrev pub where_from : Kind → Kind → Text → Text
where_from imm imm text = text
where_from del del text = text
where_from spont spont text = text
where_from _ _ text = []

unfoldable pub text_from : Kind → Log → Text
text_from k [] = []
text_from k (l ∷ ls) = where_from k l.0 l.1 ++ text_from k ls

-- The text that is held back, of the delayed and the spontaneous ones.
abbrev pub held : Text → Text → Kind → Text
held d s imm = []
held d s del = d
held d s spont = s

-- A text without a zero byte.
abbrev pub HasNoZero : Text → Type 0
HasNoZero [] = Unit
HasNoZero (c ∷ cs) = (c == 0 ≡ false) × HasNoZero cs

c_str-HasNoZero : (t : Text) → HasNoZero t → c_str t ≡ t
unfolding c_str
c_str-HasNoZero [] h = refl
c_str-HasNoZero (c ∷ cs) h = rw h.0 (ap (λ r. c ∷ r) (c_str-HasNoZero cs h.1))

-- The text of one source is in the buffer in order, and what is missing at its end is held back.
abbrev pub IsAll : Log → (Kind → Text) → (Kind → Text) → Type 0
IsAll log all h = (k : Kind) → text_from k log ++ h k ≡ all k

-- The lines are those of a log, and the log and the texts held back, d and s, are all that came;
-- while no command is answered, nothing is held back.
abbrev pub IsKeptIn : (Kind → Text) → List Text → Text → Text → Bool → Type 0
IsKeptIn all lines d s on =
    ((log : Log) × (lines ≡ split_lines (text_of log)) × IsAll log all (held d s))
    × HasNoZero d
    × HasNoZero s
    × (on ≡ false → (d ≡ []) × (s ≡ []))

-- All that came, and one text more.
abbrev pub grown : (Kind → Text) → Kind → Text → Kind → Text
grown all k t q = all q ++ where_from q k t

text_of-snoc : (log : Log) (k : Kind) (t : Text) → text_of (log ++ (k, t) ∷ []) ≡ text_of log ++ t
unfolding text_of
text_of-snoc [] k t = append-nil t
text_of-snoc (l ∷ ls) k t =
    ap (λ r. l.1 ++ r) (text_of-snoc ls k t) ∙ sym (append_assoc l.1 (text_of ls) t)

text_from-snoc :
    (q : Kind) (log : Log) (k : Kind) (t : Text)
    → text_from q (log ++ (k, t) ∷ []) ≡ text_from q log ++ where_from q k t
unfolding text_from
text_from-snoc q [] k t = append-nil (where_from q k t)
text_from-snoc q (l ∷ ls) k t =
    ap (λ r. where_from q l.0 l.1 ++ r) (text_from-snoc q ls k t)
    ∙ sym (append_assoc (where_from q l.0 l.1) (text_from q ls) (where_from q k t))

-- A text that is appended is the last one of the log.
append-Holds :
    (log : Log) (k : Kind) (t : Text) (b : CmdRspBuf)
    → HasNoZero t
    → Holds (text_of log) b
    → Holds (text_of (log ++ (k, t) ∷ [])) (append t false b)
append-Holds log k t b clean h =
    unfold call received in
    call-Holds (chunk t false) (text_of log) b h
    ∙ ap split_lines
        (ap (λ u. text_of log ++ u) (c_str-HasNoZero t clean) ∙ sym (text_of-snoc log k t))

-- A text that goes to the buffer at once, where nothing of its source is held back.
IsAll-shown :
    (log : Log) (all h1 : Kind → Text) (k : Kind) (t : Text)
    → h1 k ≡ []
    → IsAll log all h1
    → IsAll (log ++ (k, t) ∷ []) (grown all k t) h1
IsAll-shown log all h1 k t none a q =
    ap (λ x. x ++ h1 q) (text_from-snoc q log k t)
    ∙ append_assoc (text_from q log) (where_from q k t) (h1 q)
    ∙ ap (λ x. text_from q log ++ x) (swapped q k none)
    ∙ sym (append_assoc (text_from q log) (h1 q) (where_from q k t))
    ∙ ap (λ x. x ++ where_from q k t) (a q)
  where
    swapped : (q k : Kind) → h1 k ≡ [] → where_from q k t ++ h1 q ≡ h1 q ++ where_from q k t
    swapped imm imm e = rw e (append-nil t)
    swapped del del e = rw e (append-nil t)
    swapped spont spont e = rw e (append-nil t)
    swapped imm del e = sym (append-nil (h1 imm))
    swapped imm spont e = sym (append-nil (h1 imm))
    swapped del imm e = sym (append-nil (h1 del))
    swapped del spont e = sym (append-nil (h1 del))
    swapped spont imm e = sym (append-nil (h1 spont))
    swapped spont del e = sym (append-nil (h1 spont))

-- A text that is held back.
IsAll-stored :
    (log : Log) (all h1 h2 : Kind → Text) (k : Kind) (t : Text)
    → ((q : Kind) → h2 q ≡ h1 q ++ where_from q k t)
    → IsAll log all h1
    → IsAll log (grown all k t) h2
IsAll-stored log all h1 h2 k t more a q =
    ap (λ x. text_from q log ++ x) (more q)
    ∙ sym (append_assoc (text_from q log) (h1 q) (where_from q k t))
    ∙ ap (λ x. x ++ where_from q k t) (a q)

-- A text that was held back goes to the buffer.
IsAll-flushed :
    (log : Log) (all h1 h2 : Kind → Text) (k : Kind) (t : Text)
    → ((q : Kind) → where_from q k t ++ h2 q ≡ h1 q)
    → IsAll log all h1
    → IsAll (log ++ (k, t) ∷ []) all h2
IsAll-flushed log all h1 h2 k t gone a q =
    ap (λ x. x ++ h2 q) (text_from-snoc q log k t)
    ∙ append_assoc (text_from q log) (where_from q k t) (h2 q)
    ∙ ap (λ x. text_from q log ++ x) (gone q)
    ∙ a q

append-HasNoZero : (a b : Text) → HasNoZero a → HasNoZero b → HasNoZero (a ++ b)
append-HasNoZero [] b ha hb = hb
append-HasNoZero (c ∷ cs) b ha hb = (ha.0, append-HasNoZero cs b ha.1 hb)

pub IsKeptIn-shown :
    (all : Kind → Text) (b : CmdRspBuf) (d s : Text) (on : Bool) (k : Kind) (t : Text)
    → HasNoZero t
    → held d s k ≡ []
    → IsKeptIn all b.store d s on
    → IsKeptIn (grown all k t) (append t false b).store d s on
IsKeptIn-shown all b d s on k t clean none ((log, h, a), cd, cs, n) =
    let more = IsAll-shown log all (held d s) k t none a in
    ((log ++ (k, t) ∷ [], append-Holds log k t b clean h, more), cd, cs, n)

pub IsKeptIn-del :
    (all : Kind → Text) (lines : List Text) (d s t : Text)
    → HasNoZero t
    → IsKeptIn all lines d s true
    → IsKeptIn (grown all del t) lines (d ++ t) s true
IsKeptIn-del all lines d s t clean ((log, h, a), cd, cs, n) =
    let more = λ (q : Kind). elim q as (λ q. held (d ++ t) s q ≡ held d s q ++ where_from q del t) [
      | imm ↦ refl
      | del ↦ refl
      | spont ↦ sym (append-nil s)
    ] in
    let b = IsAll-stored log all (held d s) (held (d ++ t) s) del t more a in
    ((log, h, b), append-HasNoZero d t cd clean, cs, λ off. cc)

pub IsKeptIn-spont :
    (all : Kind → Text) (lines : List Text) (d s t : Text)
    → HasNoZero t
    → IsKeptIn all lines d s true
    → IsKeptIn (grown all spont t) lines d (s ++ t) true
IsKeptIn-spont all lines d s t clean ((log, h, a), cd, cs, n) =
    let more = λ (q : Kind).
      elim q as (λ q. held d (s ++ t) q ≡ held d s q ++ where_from q spont t) [
        | imm ↦ refl
        | del ↦ sym (append-nil d)
        | spont ↦ refl
      ] in
    let b = IsAll-stored log all (held d s) (held d (s ++ t)) spont t more a in
    ((log, h, b), cd, append-HasNoZero s t cs clean, λ off. cc)

pub flushed-del :
    (all : Kind → Text) (b : CmdRspBuf) (d s : Text) (on : Bool)
    → IsKeptIn all b.store d s on
    → IsKeptIn all (append d false b).store [] s on
flushed-del all b d s on ((log, h, a), cd, cs, n) =
    let gone = λ (q : Kind). elim q as (λ q. where_from q del d ++ held [] s q ≡ held d s q) [
      | imm ↦ refl
      | del ↦ append-nil d
      | spont ↦ refl
    ] in
    let more = IsAll-flushed log all (held d s) (held [] s) del d gone a in
    ((log ++ (del, d) ∷ [], append-Holds log del d b cd h, more), tt, cs, λ off. (refl, (n off).1))

pub flushed-spont :
    (all : Kind → Text) (b : CmdRspBuf) (d s : Text) (on : Bool)
    → IsKeptIn all b.store d s on
    → IsKeptIn all (append s false b).store d [] on
flushed-spont all b d s on ((log, h, a), cd, cs, n) =
    let gone = λ (q : Kind). elim q as (λ q. where_from q spont s ++ held d [] q ≡ held d s q) [
      | imm ↦ refl
      | del ↦ refl
      | spont ↦ append-nil s
    ] in
    let more = IsAll-flushed log all (held d s) (held d []) spont s gone a in
    (
      (log ++ (spont, s) ∷ [], append-Holds log spont s b cs h, more),
      cd,
      tt,
      λ off. ((n off).0, refl),
    )

pub is_null-nil : (t : Text) → is_null t ≡ true → t ≡ []
is_null-nil [] h = refl
is_null-nil (c ∷ cs) h = cc
