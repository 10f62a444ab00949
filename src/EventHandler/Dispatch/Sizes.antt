-- ===== src/EventHandler/Dispatch/Sizes.antt =====
-- Sizes of the lists of clients through a round, and ends of its loops.
use operations_procedure_sup.Common.{
  ℕ, zero, suc, ◌≤◌, ◌<◌, Bool, true, false, ◌≡◌, refl, ap, inl, inr, arith, List, [], ◌∷◌, none,
  some, length, get_elem?, Bool-cases, if◌then◌else◌,
}
use operations_procedure_sup.EventHandler.{Client, EventHandler, remove_trashed_clients}
use operations_procedure_sup.EventHandler.Laws.{valid_clients, remove_loop-valid_clients}
use operations_procedure_sup.EventHandler.Dispatch.{State, Outcome, done, ◌>>◌, mark_at}

-- No list is longer than n.
abbrev pub Fits : ℕ → EventHandler → Type 0
Fits n h =
    (length h.io_clients ≤ n)
    × (length h.timer_clients ≤ n)
    × (length h.tick_clients ≤ n)
    × (length h.chd_clients ≤ n)

-- What a callback may do to the handler: lists of at most n clients stay so, and the lists that
-- mark by position are not shortened.
abbrev pub IsCalm : {W : Type 0} → ℕ → (State W → State W) → Type 0
IsCalm {W} n call =
    (s : State W)
    → Fits n s.1
    → Fits n (call s).1
      × (length s.1.timer_clients ≤ length (call s).1.timer_clients)
      × (length s.1.chd_clients ≤ length (call s).1.chd_clients)

-- No client of the list is trashed.
abbrev pub AllValid : {X : Type 0} → List (Client X) → Type 0
AllValid [] = Unit
AllValid (c ∷ cs) = (c.trashed ≡ false) × AllValid cs

AllValid-kept :
    {X : Type 0} (c : Client X) (cs : List (Client X)) (b : Bool)
    → c.trashed ≡ b
    → AllValid cs
    → AllValid (if b then cs else c ∷ cs)
AllValid-kept c cs true e valid = valid
AllValid-kept c cs false e valid = (e, valid)

valid_clients-AllValid : {X : Type 0} (cs : List (Client X)) → AllValid (valid_clients cs)
valid_clients-AllValid [] = tt
valid_clients-AllValid (c ∷ cs) =
    AllValid-kept c (valid_clients cs) c.trashed refl (valid_clients-AllValid cs)

length-valid_clients : {X : Type 0} (cs : List (Client X)) → length (valid_clients cs) ≤ length cs
length-valid_clients [] = omega arith
length-valid_clients (c ∷ cs) = elim (Bool-cases c.trashed) [
  | inl h ↦ rw h (omega (arith, length-valid_clients cs))
  | inr h ↦ rw h (omega (arith, length-valid_clients cs))
]

-- A position behind the end, or at a client.
pub get_elem?-none : {X : Type 0} (cs : List X) (i : ℕ) → length cs ≤ i → get_elem? cs i ≡ none
get_elem?-none [] i h = refl
get_elem?-none (c ∷ cs) zero h = elim h [ ]
get_elem?-none (c ∷ cs) (suc i) h = get_elem?-none cs i (omega arith)

pub get_elem?-some :
    {X : Type 0} (cs : List X) (i : ℕ) (c : X) → get_elem? cs i ≡ some c → i < length cs
get_elem?-some [] i c e = absurd (grind (arith, e))
get_elem?-some (c1 ∷ cs) zero c e = omega arith
get_elem?-some (c1 ∷ cs) (suc i) c e = omega (arith, get_elem?-some cs i c e)

pub mark_at_inside :
    {X : Type 0} (i : ℕ) (cs : List (Client X))
    → i < length cs
    → (cs1 : List (Client X)) × (mark_at i cs ≡ some cs1) × (length cs1 ≡ length cs)
mark_at_inside i [] h = elim h [ ]
mark_at_inside zero (c ∷ cs) h = (record c { trashed = true } ∷ cs, refl, refl)
mark_at_inside (suc i) (c ∷ cs) h =
    let (cs1, e, same) = mark_at_inside i cs (omega arith) in
    (c ∷ cs1, rw (mark_at, e) refl, ap suc same)

-- The loop has ended with lists of at most n clients.
abbrev pub Ends : {W : Type 0} → ℕ → Outcome (State W) → Type 0
Ends {W} n outcome = (s : State W) × (outcome ≡ done s) × Fits n s.1

pub Ends->> :
    {W : Type 0} (n : ℕ) (outcome : Outcome (State W)) (k : State W → Outcome (State W))
    → Ends n outcome
    → ((s : State W) → Fits n s.1 → Ends n (k s))
    → Ends n (outcome >> k)
Ends->> n outcome k (s, e, fits) next = rw e (next s fits)

pub Ends-if :
    {W : Type 0} {n : ℕ} {x y : Outcome (State W)} (b : Bool)
    → Ends n x
    → Ends n y
    → Ends n (if b then x else y)
Ends-if true ends_x ends_y = ends_x
Ends-if false ends_x ends_y = ends_y

-- No client of the handler is trashed.
abbrev pub NoneTrashed : EventHandler → Type 0
NoneTrashed h =
    AllValid h.io_clients
    × AllValid h.timer_clients
    × AllValid h.tick_clients
    × AllValid h.chd_clients

pub removed-Fits : (n : ℕ) (h : EventHandler) → Fits n h → Fits n (remove_trashed_clients h)
unfolding remove_trashed_clients
removed-Fits n h fits =
    rw
      (
        remove_loop-valid_clients h.io_clients,
        remove_loop-valid_clients h.timer_clients,
        remove_loop-valid_clients h.tick_clients,
        remove_loop-valid_clients h.chd_clients,
      )
      (
        omega (arith, length-valid_clients h.io_clients),
        omega (arith, length-valid_clients h.timer_clients),
        omega (arith, length-valid_clients h.tick_clients),
        omega (arith, length-valid_clients h.chd_clients),
      )

pub removed-NoneTrashed : (h : EventHandler) → NoneTrashed (remove_trashed_clients h)
unfolding remove_trashed_clients
removed-NoneTrashed h =
    rw
      (
        remove_loop-valid_clients h.io_clients,
        remove_loop-valid_clients h.timer_clients,
        remove_loop-valid_clients h.tick_clients,
        remove_loop-valid_clients h.chd_clients,
      )
      (
        valid_clients-AllValid h.io_clients,
        valid_clients-AllValid h.timer_clients,
        valid_clients-AllValid h.tick_clients,
        valid_clients-AllValid h.chd_clients,
      )
