-- ===== src/Tests/Events.antt =====
-- The theorems on the event handler and on times at concrete ones.
use operations_procedure_sup.Common.{
  ℕ, suc, ◌+◌, ◌-◌, ◌*◌, ◌/◌, ◌%◌, ◌==◌, true, false, ◌≡◌, refl, arith, [], ◌∷◌, if◌then◌else◌, ℤ,
  pos, pos_part,
}
use operations_procedure_sup.ErrHandling.{fresh, of_code, no_problem}
use operations_procedure_sup.OzTime.{Tm, Calendar, of_secs, in_history}
use operations_procedure_sup.EventHandler.{
  EventHandler, new_client, unset_io_trigger, remove_trashed_clients, set_result,
}
use operations_procedure_sup.EventHandler.Laws.{
  others, valid_clients, remove_trashed_clients-unset_io_trigger,
}
use operations_procedure_sup.EventHandler.Dispatch.{
  State, Outside, done, dispatch_events, timer_loop, wait_result, is_expired,
}
use operations_procedure_sup.EventHandler.Dispatch.Sizes.{Fits, IsCalm, NoneTrashed}
use operations_procedure_sup.EventHandler.Dispatch.Laws.{dispatch_events_ends}
use operations_procedure_sup.EventHandler.Dispatch.Rounds.{wait_result-set_result}
use operations_procedure_sup.EventHandler.Dispatch.Timers.{timer_loop-timer_pass}

-- A calendar in local time without changes of the clock, whose months have 28 days.
abbrev date_of : ℕ → Tm
date_of s = record {
  tm_year = pos 70;
  tm_mon = pos (s / 60 / 60 / 24 / 28);
  tm_mday = pos (suc (s / 60 / 60 / 24 % 28));
  tm_hour = pos (s / 60 / 60 % 24);
  tm_min = pos (s / 60 % 60);
  tm_sec = pos (s % 60);
  tm_isdst = pos 0;
}

abbrev seconds_of : Tm → ℕ
seconds_of tm =
    pos_part tm.tm_sec
    + 60 * pos_part tm.tm_min
    + 3600 * pos_part tm.tm_hour
    + 86400 * (pos_part tm.tm_mday - 1 + 28 * pos_part tm.tm_mon)

abbrev months : Calendar
months = record {
  localtime = λ z. date_of (pos_part z);
  mktime = λ tm. (date_of (seconds_of tm), pos (seconds_of tm));
  date_is_valid = λ tm. true;
  strftime = λ f tm. [];
}

abbrev two_clients : EventHandler
two_clients = record {
  io_clients = new_client 1 5 (pos 0) ∷ (new_client 2 6 (pos 4) ∷ []);
  timer_clients = new_client 1 7 (of_secs (pos 10)) ∷ (new_client 2 8 (of_secs (pos 30)) ∷ []);
  tick_clients = [];
  chd_clients = [];
  get_out = false;
  result = fresh;
}

remove_trashed_clients-unset_io_trigger_example :
    remove_trashed_clients (unset_io_trigger 1 (pos 9) two_clients) ≡ record two_clients {
      io_clients = others 1 two_clients.io_clients;
      timer_clients = valid_clients two_clients.timer_clients;
      tick_clients = valid_clients two_clients.tick_clients;
      chd_clients = valid_clients two_clients.chd_clients;
    }
remove_trashed_clients-unset_io_trigger_example =
    remove_trashed_clients-unset_io_trigger 1 (pos 9) two_clients

-- The world is the number of calls; the clock reads 20, and no process ends.
abbrev quiet_world : Outside ℕ
quiet_world = record {
  fires = λ f i s. (suc s.0, s.1);
  fires_signal = λ f i pid stat s. s;
  now = λ w. pos 20;
  waitpid = λ pid w. (w, pos 0, pos 0);
  select_sleep = λ w. w;
  usleep = λ n w. w;
}

quiet_world-IsCalm : (f i : ℕ) → IsCalm 2 (quiet_world.fires f i)
quiet_world-IsCalm f i s fits = (fits, omega arith, omega arith)

quiet_signal-IsCalm : (f i : ℕ) (pid stat : ℤ) → IsCalm 2 (quiet_world.fires_signal f i pid stat)
quiet_signal-IsCalm f i pid stat s fits = (fits, omega arith, omega arith)

dispatch_events_ends_example :
    (s1 : State ℕ) × (dispatch_events quiet_world 3 (0, two_clients) ≡ done s1)
    × NoneTrashed s1.1
    × Fits 2 s1.1
dispatch_events_ends_example =
    dispatch_events_ends quiet_world 2 quiet_world-IsCalm quiet_signal-IsCalm (0, two_clients)
      (omega arith)

timer_loop-timer_pass_example :
    timer_loop quiet_world 3 0 false (0, record two_clients { get_out = false })
    ≡ done (
      1,
      record two_clients {
        timer_clients =
            record (new_client 1 7 (of_secs (pos 10))) { trashed = true }
            ∷ (new_client 2 8 (of_secs (pos 30)) ∷ []);
        get_out = false;
      },
    )
unfolding is_expired in_history
timer_loop-timer_pass_example =
    timer_loop-timer_pass quiet_world (λ f i w. suc w) (λ f i s. refl) 0 two_clients
      two_clients.timer_clients

-- The function 5 sets a result, and the others do nothing.
abbrev stopping_world : Outside ℕ
stopping_world = record quiet_world {
  fires = λ f i s. if f == 5 then (s.0, set_result (of_code no_problem) s.1) else s;
}

wait_result-set_result_example :
    wait_result stopping_world 2 2 (0, two_clients)
    ≡ done (
      (
        0,
        remove_trashed_clients
            (set_result (of_code no_problem) (record two_clients { get_out = false })),
      ),
      of_code no_problem,
    )
wait_result-set_result_example =
    wait_result-set_result stopping_world 0 0 0 0 two_clients
      (record two_clients { get_out = false }) (new_client 1 5 (pos 0))
      (new_client 2 6 (pos 4) ∷ []) (of_code no_problem) refl refl
