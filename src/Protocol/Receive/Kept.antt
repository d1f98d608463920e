-- ===== src/Protocol/Receive/Kept.antt =====
-- What `handle` of src/protocol.c keeps.
use ptpd_lwip.Types.Opt.{faulty}
use ptpd_lwip.Prelude.{◌≡◌, ◌⊎◌}
use ptpd_lwip.Protocol.Receive.{handle}
use ptpd_lwip.Bmc.Spares.{IsSized}
use ptpd_lwip.Protocol.Timers.Agree.{IsTimed}
use ptpd_lwip.Types.System.{Port, System}
use ptpd_lwip.Protocol.Moves.{IsPrompt, Moves-IsTimed, Moves-IsSized, Moves-state, Moves-options}
use ptpd_lwip.Protocol.Receive.Moves.{handle-Moves}

-- On a port whose timers expire only while they run, a message of any kind, or none, leaves exactly
-- the timers of the port's state running if they were before, keeps the indices of the table of
-- foreign masters within its array and the size of that, changes the state to none but FAULTY, and leaves the run-time
-- options.
pub handle_kept :
    (p : Port) (s : System)
    → IsPrompt p
    → IsTimed s
    → IsSized s.clock
    → IsTimed (handle p s)
      × IsSized (handle p s).clock
      × (((handle p s).clock.port_ds.port_state ≡ s.clock.port_ds.port_state)
          ⊎ ((handle p s).clock.port_ds.port_state ≡ faulty))
      × ((handle p s).clock.rt_opts ≡ s.clock.rt_opts)
handle_kept p s prompt timed bounds =
    let moves = handle-Moves p prompt s in
    (Moves-IsTimed moves timed, Moves-IsSized moves bounds, Moves-state moves, Moves-options moves)
