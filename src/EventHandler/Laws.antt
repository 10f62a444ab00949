-- ===== src/EventHandler/Laws.antt =====
-- The loops of `removeTrashedClients` keep the valid clients, in their order.
use operations_procedure_sup.Common.{
  ℕ, zero, suc, ◌||◌, ◌≡◌, refl, ap, ◌∙◌, inl, inr, List, [], ◌∷◌, ◌==◌, ℤ, if◌then◌else◌, length,
  get_elem?, Bool-cases, Option-cases,
}
use operations_procedure_sup.EventHandler.{
  Client, EventHandler, unset_clients, remove_if_trashed, remove_loop, remove_trashed_clients,
  unset_io_trigger,
}

-- The valid clients, in their order.
abbrev pub valid_clients : {X : Type 0} → List (Client X) → List (Client X)
valid_clients [] = []
valid_clients (c ∷ cs) = if c.trashed then valid_clients cs else c ∷ valid_clients cs

remove_if_trashed-rest :
    {X : Type 0} (n : ℕ) (c : Client X) (cs : List (Client X))
    → remove_if_trashed (suc n) (c ∷ cs) ≡ c ∷ remove_if_trashed n cs
remove_if_trashed-rest n c cs = elim (Option-cases (get_elem? cs n)) [
  | inl gone ↦ rw (remove_if_trashed, gone) refl
  | inr (c1, here) ↦ elim (Bool-cases c1.trashed) [
    | inl h ↦ rw (remove_if_trashed, here, h) refl
    | inr h ↦ rw (remove_if_trashed, here, h) refl
  ]
]

-- The first client is looked at last.
remove_loop-first :
    {X : Type 0} (n : ℕ) (c : Client X) (cs : List (Client X))
    → remove_loop (suc n) (c ∷ cs) ≡ (if c.trashed then remove_loop n cs else c ∷ remove_loop n cs)
unfolding remove_loop
remove_loop-first zero c cs = refl
remove_loop-first (suc n) c cs =
    ap (remove_loop (suc n)) (remove_if_trashed-rest n c cs)
    ∙ remove_loop-first n c (remove_if_trashed n cs)

-- The loop that removes the trashed clients, from the last position down, leaves the valid
-- clients of the list in their order.
pub remove_loop-valid_clients :
    {X : Type 0} (cs : List (Client X)) → remove_loop (length cs) cs ≡ valid_clients cs
unfolding remove_loop
remove_loop-valid_clients [] = refl
remove_loop-valid_clients (c ∷ cs) =
    remove_loop-first (length cs) c cs
    ∙ ap (λ rest. if c.trashed then rest else c ∷ rest) (remove_loop-valid_clients cs)

-- The clients that stay when those of an instance are unset: the valid ones of the others.
abbrev pub others : {X : Type 0} → ℕ → List (Client X) → List (Client X)
others i [] = []
others i (c ∷ cs) = if c.trashed || c.instance_ptr == i then others i cs else c ∷ others i cs

valid_clients-unset_clients :
    {X : Type 0} (i : ℕ) (cs : List (Client X)) → valid_clients (unset_clients i cs) ≡ others i cs
valid_clients-unset_clients i [] = refl
valid_clients-unset_clients i (c ∷ cs) =
    let ih = valid_clients-unset_clients i cs in
    elim (Bool-cases (c.instance_ptr == i)) [
      | inl same ↦ elim (Bool-cases c.trashed) [
        | inl h ↦ rw (same, h, ih) refl
        | inr h ↦ rw (same, h, ih) refl
      ]
      | inr other ↦ elim (Bool-cases c.trashed) [
        | inl h ↦ rw (other, h, ih) refl
        | inr h ↦ rw (other, h, ih) refl
      ]
    ]

-- When the io trigger of an instance is unset and the trashed clients are removed, the valid io
-- clients of the other instances are left, in their order, whatever the file descriptor was; and
-- the timers, ticks and children keep their valid clients.
pub remove_trashed_clients-unset_io_trigger :
    (i : ℕ) (fd : ℤ) (h : EventHandler)
    → remove_trashed_clients (unset_io_trigger i fd h) ≡ record h {
      io_clients = others i h.io_clients;
      timer_clients = valid_clients h.timer_clients;
      tick_clients = valid_clients h.tick_clients;
      chd_clients = valid_clients h.chd_clients;
    }
unfolding remove_trashed_clients unset_io_trigger
remove_trashed_clients-unset_io_trigger i fd h =
    rw
      (
        remove_loop-valid_clients (unset_clients i h.io_clients),
        remove_loop-valid_clients h.timer_clients,
        remove_loop-valid_clients h.tick_clients,
        remove_loop-valid_clients h.chd_clients,
        valid_clients-unset_clients i h.io_clients,
      )
      refl
