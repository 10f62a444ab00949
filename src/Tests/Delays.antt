-- ===== src/Tests/Delays.antt =====
-- The theorem on delays, at a clock that the user may interrupt.
use operations_procedure_sup.Common.{
  ℕ, suc, ◌==◌, Bool, true, false, ◌≡◌, refl, arith, [], ◌∷◌, map, pos,
}
use operations_procedure_sup.Tools.Engine.{engine}
use operations_procedure_sup.ErrHandling.{fresh}
use operations_procedure_sup.Value.Convert.{of_long}
use operations_procedure_sup.Value.Convert.Numerals.{engine-ReadsNumerals}
use operations_procedure_sup.OzTime.{OzTime, of_secs}
use operations_procedure_sup.Clock.{Scene, delay, delay_sec}
use operations_procedure_sup.Clock.Delays.{Waits, second, slept, told, delay-delay_sec}

abbrev now : OzTime
now = of_secs (pos 1000)

abbrev scene : Scene ℕ
scene = record {
  clock = record {
    busy = false;
    delay_interrupted = false;
    inform_client = false;
    has_listener = true;
    is_gui = true;
    original_start_time = of_secs (pos 0);
    secs_for_delay = pos 0;
    last_tick = of_secs (pos 0);
  };
  handler = record {
    io_clients = [];
    timer_clients = [];
    tick_clients = [];
    chd_clients = [];
    get_out = false;
    result = fresh;
  };
  shown = [];
  rest = 0;
}

-- The world counts the seconds, and the user interrupts in the 100th.
abbrev tick : ℕ → ℕ
tick w = suc w

abbrev stops : ℕ → Bool
stops w = w == 99

delay-delay_sec_example :
    Waits tick stops 120 scene (delay (second tick stops) engine 121 now (of_long (pos 2)) scene)
    × Waits tick stops 7 scene
        (delay_sec (second tick stops) engine 121 now (of_long (pos 7)) scene)
delay-delay_sec_example =
    delay-delay_sec tick stops engine engine-ReadsNumerals 2 7 121 now scene refl refl
      (omega arith, omega arith, omega arith) (omega arith, omega arith, omega arith)

-- Of the seven seconds all are told, and slept.
seven_seconds :
    (slept tick stops 7 0 ≡ 7) × (told 7 7 [] ≡ map pos (0 ∷ 1 ∷ 2 ∷ 3 ∷ 4 ∷ 5 ∷ 6 ∷ []))
unfolding slept told
seven_seconds = (refl, refl)
