-- ===== src/EventHandler.antt =====
-- ops-enm-parser/src/main/cpp/parse/OZT_EventHandler.C: the four lists of clients, the triggers
-- that enter and retire them, and the removal of the retired ones.
pub mod Dispatch
pub mod Laws
use operations_procedure_sup.Common.{
  ℕ, zero, suc, ◌-◌, Bool, true, false, not, List, [], ◌∷◌, ◌++◌, Option, none, some, ◌==◌,
  if◌then◌else◌, length, get_elem?, ℤ,
}
use operations_procedure_sup.ErrHandling.{OztResult, fresh}
use operations_procedure_sup.OzTime.{OzTime, of_secs, add_secs}

-- `OZT_Client` with what its subclass adds: a file descriptor, a time, or a process. The pointers
-- `instance` and `func` are numbers.
pub record Client (X : Type 0) : Type 0 where
  pub instance_ptr : ℕ
  pub func : ℕ
  pub trashed : Bool
  pub extra : X

abbrev pub IoClient : Type 0
IoClient = Client ℤ

abbrev pub TimerClient : Type 0
TimerClient = Client OzTime

abbrev pub TickClient : Type 0
TickClient = Client Unit

abbrev pub ChdClient : Type 0
ChdClient = Client ℤ

-- `OZT_EventHandler`
pub record EventHandler : Type 0 where
  pub io_clients : List IoClient
  pub timer_clients : List TimerClient
  pub tick_clients : List TickClient
  pub chd_clients : List ChdClient
  pub get_out : Bool
  pub result : OztResult

-- `new OZT_...Client(instance, func, extra)`
abbrev pub new_client : {X : Type 0} → ℕ → ℕ → X → Client X
new_client i f x = record { instance_ptr = i; func = f; trashed = false; extra = x }

-- `isValid`
abbrev pub is_valid : {X : Type 0} → Client X → Bool
is_valid c = not c.trashed

-- `markToTrash`
abbrev pub mark_to_trash : {X : Type 0} → Client X → Client X
mark_to_trash c = record c { trashed = true }

-- The loops of the `unset` functions.
abbrev pub unset_clients : {X : Type 0} → ℕ → List (Client X) → List (Client X)
unset_clients i [] = []
unset_clients i (c ∷ cs) = (if c.instance_ptr == i then mark_to_trash c else c) ∷ unset_clients i cs

-- `setIOTrigger`
unfoldable pub set_io_trigger : ℕ → ℕ → ℤ → EventHandler → EventHandler
set_io_trigger i f fd h = record h { io_clients = h.io_clients ++ new_client i f fd ∷ [] }

-- `unsetIOTrigger`: the file descriptor is not looked at.
unfoldable pub unset_io_trigger : ℕ → ℤ → EventHandler → EventHandler
unset_io_trigger i fd h = record h { io_clients = unset_clients i h.io_clients }

-- `setSigChdTrigger`, with the address of `defaultSigChdCallBack` for a null pointer.
unfoldable pub set_sig_chd_trigger : ℕ → ℕ → ℤ → Option ℕ → EventHandler → EventHandler
set_sig_chd_trigger default_call_back i pid none h = record h {
  chd_clients = h.chd_clients ++ new_client i default_call_back pid ∷ [];
}
set_sig_chd_trigger default_call_back i pid (some f) h = record h {
  chd_clients = h.chd_clients ++ new_client i f pid ∷ [];
}

-- `unsetSigChdTrigger`: the process is not looked at.
unfoldable pub unset_sig_chd_trigger : ℕ → ℤ → EventHandler → EventHandler
unset_sig_chd_trigger i pid h = record h { chd_clients = unset_clients i h.chd_clients }

-- `setTimer`, at a reading of the clock.
unfoldable pub set_timer : ℤ → ℕ → ℕ → ℤ → EventHandler → EventHandler
set_timer now i f secs h = record h {
  timer_clients = h.timer_clients ++ new_client i f (add_secs (of_secs now) secs) ∷ [];
}

-- `unsetTimer`
unfoldable pub unset_timer : ℕ → EventHandler → EventHandler
unset_timer i h = record h { timer_clients = unset_clients i h.timer_clients }

-- `setTickTrigger`
unfoldable pub set_tick_trigger : ℕ → ℕ → EventHandler → EventHandler
set_tick_trigger i f h = record h { tick_clients = h.tick_clients ++ new_client i f tt ∷ [] }

-- `unsetTickTrigger`
unfoldable pub unset_tick_trigger : ℕ → EventHandler → EventHandler
unset_tick_trigger i h = record h { tick_clients = unset_clients i h.tick_clients }

-- `setResult`
unfoldable pub set_result : OztResult → EventHandler → EventHandler
set_result r h = record h { get_out = true; result = r }

-- `stopDispatch`
unfoldable pub stop_dispatch : EventHandler → EventHandler
stop_dispatch h = record h { get_out = true }

-- `removeAt`
abbrev pub remove_at : {X : Type 0} → ℕ → List (Client X) → List (Client X)
remove_at i [] = []
remove_at zero (c ∷ cs) = cs
remove_at (suc i) (c ∷ cs) = c ∷ remove_at i cs

-- One round of a loop of `removeTrashedClients`.
abbrev pub remove_if_trashed : {X : Type 0} → ℕ → List (Client X) → List (Client X)
remove_if_trashed i cs = elim (get_elem? cs i) [
  | none ↦ cs
  | some c ↦ if c.trashed then remove_at i cs else cs
]

-- A loop of `removeTrashedClients`: the positions below n, the last one first.
unfoldable pub remove_loop : {X : Type 0} → ℕ → List (Client X) → List (Client X)
remove_loop zero cs = cs
remove_loop (suc i) cs = remove_loop i (remove_if_trashed i cs)

-- `removeTrashedClients`
unfoldable pub remove_trashed_clients : EventHandler → EventHandler
remove_trashed_clients h = record h {
  io_clients = remove_loop (length h.io_clients) h.io_clients;
  timer_clients = remove_loop (length h.timer_clients) h.timer_clients;
  tick_clients = remove_loop (length h.tick_clients) h.tick_clients;
  chd_clients = remove_loop (length h.chd_clients) h.chd_clients;
}
