-- ===== src/Orders/Escapes.antt =====
-- The escape of `#` in the texts of an order, and the pieces between two of them.
use operations_procedure_sup.Common.{
  ℕ, false, ◌≡◌, refl, sym, ap, ◌∙◌, inl, inr, arith, [], ◌∷◌, ◌++◌, Text, text_eq, ◌==◌,
  Bool-cases, ==_iff,
}
use operations_procedure_sup.Orders.{has_hash_mark, crypted, crypt, decrypted, decrypt}

-- No byte of the text is the byte c.
abbrev pub Lacks : ℕ → Text → Type 0
Lacks c [] = Unit
Lacks c (d ∷ ds) = ((d == c) ≡ false) × Lacks c ds

decrypted_plain : (c : ℕ) (s : Text) → (c == b'%') ≡ false → decrypted (c ∷ s) ≡ c ∷ decrypted s
unfolding decrypted
decrypted_plain c [] h = rw h refl
decrypted_plain c (d ∷ ds) h = rw h refl

pub crypt-crypted : (s : Text) → crypt s ≡ crypted s
unfolding crypt
crypt-crypted s = elim (Bool-cases (has_hash_mark s)) [
  | inl e ↦ rw e refl
  | inr e ↦ rw e (sym (plain s e))
]
  where
    plain : (s : Text) → has_hash_mark s ≡ false → crypted s ≡ s
    plain [] e = refl
    plain (c ∷ cs) e = ground (arith, plain cs)

decrypted-crypted : (s : Text) → Lacks b'%' s → decrypted (crypted s) ≡ s
unfolding crypted decrypted
decrypted-crypted [] h = refl
decrypted-crypted (c ∷ cs) h = elim (Bool-cases (c == b'#')) [
  | inl e ↦
      rw e (
        ap (λ t. b'#' ∷ t) (decrypted-crypted cs h.1)
        ∙ ap (λ d. d ∷ cs) (sym ((==_iff c b'#').0 e)))
  | inr e ↦ rw e (decrypted_plain c (crypted cs) h.0 ∙ ap (λ t. c ∷ t) (decrypted-crypted cs h.1))
]

-- A text without `%` that is not one blank comes back from its escaped form.
pub decrypt-crypt :
    (s : Text) → Lacks b'%' s → text_eq s (b' ' ∷ []) ≡ false → decrypt (crypt s) ≡ s
unfolding decrypt
decrypt-crypt s h k = rw (crypt-crypted s, decrypted-crypted s h, k) refl

decrypted-append : (s t : Text) → Lacks b'%' s → decrypted (crypted s ++ t) ≡ s ++ decrypted t
unfolding crypted decrypted
decrypted-append [] t h = refl
decrypted-append (c ∷ cs) t h = elim (Bool-cases (c == b'#')) [
  | inl e ↦ rw e (
      ap (λ r. b'#' ∷ r) (decrypted-append cs t h.1)
      ∙ ap (λ d. d ∷ (cs ++ decrypted t)) (sym ((==_iff c b'#').0 e)))
  | inr e ↦
      rw e (decrypted_plain c (crypted cs ++ t) h.0 ∙ ap (λ r. c ∷ r) (decrypted-append cs t h.1))
]

crypted-append : (s t : Text) → crypted (s ++ t) ≡ crypted s ++ crypted t
unfolding crypted
crypted-append [] t = refl
crypted-append (c ∷ cs) t = elim (Bool-cases (c == b'#')) [
  | inl e ↦ rw e (ap (λ r. b'%' ∷ (b'&' ∷ r)) (crypted-append cs t))
  | inr e ↦ rw e (ap (λ r. c ∷ r) (crypted-append cs t))
]

-- A `%` in a text is lost on the way, and with it the byte behind it, if that is neither `#` nor
-- `&`: what comes back is the text around the two. The two texts around hold no `%`, and together
-- they are not one blank.
pub decrypt_loses_percent :
    (s t : Text) (c : ℕ)
    → Lacks b'%' s
    → Lacks b'%' t
    → (c == b'#') ≡ false
    → (c == b'&') ≡ false
    → text_eq (s ++ t) (b' ' ∷ []) ≡ false
    → decrypt (crypt (s ++ (b'%' ∷ (c ∷ t)))) ≡ s ++ t
unfolding decrypt
decrypt_loses_percent s t c hs ht no_hash no_amp more =
    let e : decrypted (crypt (s ++ (b'%' ∷ (c ∷ t)))) ≡ s ++ t =
      ap decrypted (crypt-crypted (s ++ (b'%' ∷ (c ∷ t))) ∙ crypted-append s (b'%' ∷ (c ∷ t)))
      ∙ decrypted-append s (crypted (b'%' ∷ (c ∷ t))) hs
      ∙ ap (λ r. s ++ r) (behind_percent c t no_hash no_amp ∙ decrypted-crypted t ht) in
    rw (e, more) refl
  where
    behind_percent :
        (c : ℕ) (t : Text)
        → (c == b'#') ≡ false
        → (c == b'&') ≡ false
        → decrypted (crypted (b'%' ∷ (c ∷ t))) ≡ decrypted (crypted t)
    behind_percent c t no_hash no_amp =
        unfold crypted in unfold decrypted in rw (no_hash, decrypted, no_amp) refl
