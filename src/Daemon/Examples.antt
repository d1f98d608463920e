-- ===== src/Daemon/Examples.antt =====
-- Tests of src/lwip-ptp.c, and instances of its theorems.
use ptpd_lwip.Bmc.Spares.{IsSized}
use ptpd_lwip.Types.Opt.{listening}
use ptpd_lwip.Protocol.Decide.Resume.{state}
use ptpd_lwip.Protocol.Decide.Subordinate.{is_low}
use ptpd_lwip.Types.Zero.{zero_clock}
use ptpd_lwip.Protocol.Timers.{running}
use ptpd_lwip.Protocol.Timers.Agree.{IsTimed}
use ptpd_lwip.Protocol.Moves.{IsPrompt}
use ptpd_lwip.Prelude.{◌≡◌, true, refl, false, ◌∷◌, []}
use ptpd_lwip.Types.System.{Port, System}
use ptpd_lwip.Daemon.{ptpd_thread, lwip_ptp_init, alert_mailbox, runtime_options}
use ptpd_lwip.Daemon.Safe.{IsFresh, ptpd_thread_safe}
use ptpd_lwip.Types.Sample.{sample_surroundings, sample_path, sample_uuid, sample_options}

-- Every timer that runs has expired.
abbrev prompt_surroundings : Port
prompt_surroundings = record sample_surroundings { expired = λ calls t. running t calls }

surroundings-IsPrompt : IsPrompt prompt_surroundings
surroundings-IsPrompt = record { runs = λ calls t expired. expired }

abbrev fresh_system : System
fresh_system = record {
  clock = zero_clock sample_options sample_uuid;
  net_path = sample_path;
  calls = [];
}

system-IsFresh : IsFresh fresh_system
system-IsFresh = record { state = refl; calls = refl; next = refl; best = refl }

ptpd_thread_safe_example :
    IsTimed (ptpd_thread prompt_surroundings 3 fresh_system)
    × (is_low (state (ptpd_thread prompt_surroundings 3 fresh_system)) ≡ true)
    × (state (ptpd_thread prompt_surroundings 1 fresh_system) ≡ listening)
    × IsSized (ptpd_thread prompt_surroundings 4 fresh_system).clock
ptpd_thread_safe_example =
    ptpd_thread_safe prompt_surroundings surroundings-IsPrompt 3 fresh_system system-IsFresh

-- The options of the thread are those of a slave-only clock.
options_run : runtime_options.clock_quality.clock_class ≡ 255
unfolding runtime_options
options_run = refl

-- Without the semaphore no thread is created.
lwip_ptp_init_run : lwip_ptp_init true false 3 ≡ alert_mailbox ∷ []
unfolding lwip_ptp_init
lwip_ptp_init_run = refl
