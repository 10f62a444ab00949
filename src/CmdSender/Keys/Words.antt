-- ===== src/CmdSender/Keys/Words.antt =====
-- The words of `@/w1,...,wn/`, which are the keys.
use operations_procedure_sup.Common.{
  ℕ, zero, suc, ◌≤◌, false, ◌≡◌, ◌≢◌, refl, sym, ap, ◌∙◌, inl, inr, Option-cases, List, [], ◌∷◌,
  ◌++◌, map, none, some, Text, ◌==◌, length, arith,
}
use operations_procedure_sup.Misc.{trim}
use operations_procedure_sup.ErrHandling.{of_code, no_problem}
use operations_procedure_sup.CmdSender.{CmdSender}
use operations_procedure_sup.CmdSender.Keys.{without_slash, at_comma, keys_loop, set_scan_str}

abbrev pub HasNoComma : Text → Type 0
HasNoComma [] = Unit
HasNoComma (c ∷ cs) = (c == b',' ≡ false) × HasNoComma cs

-- Words without commas, the last of which is not empty.
abbrev pub AreWords : List Text → Type 0
AreWords [] = ⊥
AreWords (w ∷ []) = HasNoComma w × (w ≢ [])
AreWords (w ∷ (v ∷ vs)) = HasNoComma w × AreWords (v ∷ vs)

-- The words with commas between them.
abbrev pub with_commas : List Text → Text
with_commas [] = []
with_commas (w ∷ []) = w
with_commas (w ∷ (v ∷ vs)) = w ++ b',' ∷ with_commas (v ∷ vs)

at_comma-none : (w : Text) → HasNoComma w → at_comma w ≡ none
unfolding at_comma
at_comma-none [] h = refl
at_comma-none (c ∷ cs) h = rw (at_comma-none cs h.1) (rw h.0 refl)

at_comma-word : (w rest : Text) → HasNoComma w → at_comma (w ++ b',' ∷ rest) ≡ some (w, rest)
unfolding at_comma
at_comma-word [] rest h = elim (Option-cases (at_comma rest)) [
  | inl e ↦ rw e refl
  | inr (r, e) ↦ rw e refl
]
at_comma-word (c ∷ cs) rest h = rw (at_comma-word cs rest h.1) (rw h.0 refl)

without_slash-append : (t : Text) → without_slash (t ++ b'/' ∷ []) ≡ some t
without_slash-append [] = refl
without_slash-append (c ∷ []) = refl
without_slash-append (c ∷ (d ∷ ds)) = rw (without_slash-append (d ∷ ds)) refl

-- A round of the loop on a text with a comma.
at_word :
    (f : ℕ) (w rest : Text) (ks : List Text) (d : ℕ) (ds : Text)
    → at_comma (d ∷ ds) ≡ some (w, rest)
    → keys_loop f rest ≡ some ks
    → keys_loop (suc f) (d ∷ ds) ≡ some (trim w ∷ ks)
unfolding keys_loop
at_word f w rest ks d ds e more = rw (e, keys_loop) (rw more refl)

-- A round of the loop on words.
keys_loop-word :
    (f : ℕ) (w rest : Text) (ks : List Text)
    → HasNoComma w
    → keys_loop f rest ≡ some ks
    → keys_loop (suc f) (w ++ b',' ∷ rest) ≡ some (trim w ∷ ks)
keys_loop-word f [] rest ks h e = at_word f [] rest ks b',' rest (at_comma-word [] rest h) e
keys_loop-word f (c ∷ cs) rest ks h e =
    at_word f (c ∷ cs) rest ks c (cs ++ b',' ∷ rest) (at_comma-word (c ∷ cs) rest h) e

keys_loop-with_commas :
    (f : ℕ) (ws : List Text)
    → AreWords ws
    → length ws ≤ f
    → keys_loop f (with_commas ws) ≡ some (map trim ws)
unfolding keys_loop
keys_loop-with_commas f [] h le = absurd h
keys_loop-with_commas zero (w ∷ ws) h le = absurd (omega arith)
keys_loop-with_commas (suc f) ([] ∷ []) h le = absurd (h.1 refl)
keys_loop-with_commas (suc f) ((c ∷ cs) ∷ []) h le = rw (at_comma-none (c ∷ cs) h.0, keys_loop) refl
keys_loop-with_commas (suc f) (w ∷ (v ∷ vs)) h le =
    let rest = keys_loop-with_commas f (v ∷ vs) h.1 (omega arith) in
    keys_loop-word f w (with_commas (v ∷ vs)) (map trim (v ∷ vs)) h.0 rest

with_commas-full :
    (ws : List Text) → AreWords ws → (d : ℕ) × (ds : Text) × (with_commas ws ≡ d ∷ ds)
with_commas-full [] h = absurd h
with_commas-full ([] ∷ []) h = absurd (h.1 refl)
with_commas-full ((c ∷ cs) ∷ []) h = (c, cs, refl)
with_commas-full ([] ∷ (v ∷ vs)) h = (b',', with_commas (v ∷ vs), refl)
with_commas-full ((c ∷ cs) ∷ (v ∷ vs)) h = (c, cs ++ b',' ∷ with_commas (v ∷ vs), refl)

-- Words without commas, the last of which is not empty, with commas between them and a `/` behind,
-- and no white space at the two ends: `setScanStr` appends exactly the words to the keys, in order
-- and without the white space at their ends; fuel for as many rounds as there are words is enough.
pub set_scan_str-with_commas :
    (f : ℕ) (ws : List Text) (c : CmdSender)
    → AreWords ws
    → trim (with_commas ws) ≡ with_commas ws
    → length ws ≤ f
    → set_scan_str f (with_commas ws ++ b'/' ∷ []) c
      ≡ some (of_code no_problem, record c { keys = c.keys ++ map trim ws })
unfolding set_scan_str
set_scan_str-with_commas f ws c words trimmed le =
    let (d, ds, full) = with_commas-full ws words in
    let loop = ap (keys_loop f) (sym full) ∙ keys_loop-with_commas f ws words le in
    rw (without_slash-append (with_commas ws), set_scan_str) (rw (trimmed ∙ full) (rw loop refl))
