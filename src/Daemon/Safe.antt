-- ===== src/Daemon/Safe.antt =====
-- The thread of src/lwip-ptp.c in all its rounds.
use ptpd_lwip.Protocol.Run.Sized.{do_state_first-IsSized, do_state-IsSized}
use ptpd_lwip.Bmc.Spares.{IsSized, IsRoomy}
use ptpd_lwip.Protocol.Timers.Agree.Kept.{to_state-kept, to_state-options, to_state-table}
use ptpd_lwip.Protocol.Decide.Timed.{free-IsTimed}
use ptpd_lwip.Types.Opt.{initializing, listening, state_number}
use ptpd_lwip.Protocol.Timers.{running}
use ptpd_lwip.Prelude.{◌≡◌, ℕ, true, [], refl, suc, zero, ap, arith, ◌∙◌}
use ptpd_lwip.Types.System.{Port, System, log, sys_arch_mbox_fetch, on_clock}
use ptpd_lwip.Daemon.{runtime_options, start, rounds, ptpd_thread, with_options}
use ptpd_lwip.Protocol.Run.Timed.{do_state-IsTimed}
use ptpd_lwip.Protocol.Run.Low.{IsLow, do_state-IsLow, do_state_first}
use ptpd_lwip.Protocol.Run.Init.{asks_slave_only}
use ptpd_lwip.Protocol.Run.Live.{do_state-listening}
use ptpd_lwip.Protocol.Moves.{IsPrompt}
use ptpd_lwip.Protocol.Timers.Agree.{IsTimed}
use ptpd_lwip.Protocol.Decide.Resume.{state}
use ptpd_lwip.Protocol.Decide.Subordinate.{is_low}

-- The system before the thread starts: the state is the first of the enumeration, as all is zero, and
-- no call was made.
pub record IsFresh (s : System) : Type 0 where
  pub state : s.clock.port_ds.port_state ≡ initializing
  pub calls : s.calls ≡ []
  pub next : s.clock.foreign_master_ds.i ≡ 0
  pub best : s.clock.foreign_master_ds.best ≡ 0

options-asked : asks_slave_only runtime_options ≡ true
unfolding runtime_options
options-asked = refl

fresh-IsTimed : (s : System) → IsFresh s → IsTimed (on_clock with_options s)
unfolding with_options running
fresh-IsTimed s fresh = record { timers = λ t. rw (fresh.calls, fresh.state) refl }

start-IsTimed : (p : Port) (s : System) → IsFresh s → IsTimed (start p s)
start-IsTimed p s fresh =
    unfold start in
    free-IsTimed p initializing (on_clock with_options s) (λ e. ground (arith, ap state_number e))
      (fresh-IsTimed s fresh)

-- What the thread starts with.
pub start-kept :
    (p : Port) (s : System)
    → (state (start p s) ≡ initializing)
      × ((start p s).clock.recommended_state ≡ initializing)
      × (asks_slave_only (start p s).clock.rt_opts ≡ true)
unfolding start with_options
start-kept p s =
    let (st, default, recommended) = to_state-kept p initializing (on_clock with_options s) in
    (
      st,
      recommended,
      ap asks_slave_only (to_state-options p initializing (on_clock with_options s))
          ∙ options-asked,
    )

options-IsRoomy : (s : System) → IsFresh s → IsRoomy (on_clock with_options s).clock
unfolding with_options runtime_options
options-IsRoomy s fresh = record {
  size = refl;
  next_in = rw fresh.next (omega arith);
  best_in = rw fresh.best (omega arith);
}

start-IsRoomy : (p : Port) (s : System) → IsFresh s → IsRoomy (start p s).clock
start-IsRoomy p s fresh =
    let ready = on_clock with_options s in
    let v = options-IsRoomy s fresh in
    unfold start in
    record {
      size = rw (to_state-table p initializing ready, to_state-options p initializing ready) v.size;
      next_in =
          rw (to_state-table p initializing ready, to_state-options p initializing ready) v.next_in;
      best_in =
          rw (to_state-table p initializing ready, to_state-options p initializing ready) v.best_in;
    }

logged-IsTimed : (s : System) → IsTimed s → IsTimed (log sys_arch_mbox_fetch s)
unfolding running
logged-IsTimed s timed = record { timers = timed.timers }

logged-IsLow : (s : System) → IsLow s → IsLow (log sys_arch_mbox_fetch s)
logged-IsLow s h = record {
  subordinate = record {
    only = h.subordinate.only;
    state_low = h.subordinate.state_low;
    recommended_low = h.subordinate.recommended_low;
  };
  options = h.options;
}

module _ (p : Port) (prompt : IsPrompt p) where
  rounds-IsTimed : (n : ℕ) (s : System) → IsTimed s → IsTimed (rounds p n s)
  unfolding rounds
  rounds-IsTimed zero s timed = timed
  rounds-IsTimed (suc n) s timed =
      logged-IsTimed _ (do_state-IsTimed p prompt (rounds p n s) (rounds-IsTimed n s timed))

  ptpd_thread-IsTimed : (n : ℕ) (s : System) → IsFresh s → IsTimed (ptpd_thread p n s)
  ptpd_thread-IsTimed n s fresh =
      unfold ptpd_thread in rounds-IsTimed n (start p s) (start-IsTimed p s fresh)

  rounds-IsLow : (n : ℕ) (s : System) → IsFresh s → IsLow (rounds p (suc n) (start p s))
  unfolding rounds
  rounds-IsLow zero s fresh =
      let (st, recommended, asked) = start-kept p s in
      logged-IsLow _ (do_state_first p (start p s) st recommended asked)
  rounds-IsLow (suc n) s fresh = logged-IsLow _ (do_state-IsLow p prompt _ (rounds-IsLow n s fresh))

  rounds-IsSized : (n : ℕ) (s : System) → IsFresh s → IsSized (rounds p (suc n) (start p s)).clock
  unfolding rounds
  rounds-IsSized zero s fresh =
      let (st, recommended, asked) = start-kept p s in
      do_state_first-IsSized p (start p s) st recommended (start-IsRoomy p s fresh)
  rounds-IsSized (suc n) s fresh = do_state-IsSized p prompt _ (rounds-IsSized n s fresh)

  -- A thread that starts with all zero, on a port whose timers expire only while they run: after any
  -- number of rounds exactly the timers of the port's state run, and the port is in none of the
  -- states MASTER, PRE_MASTER and PASSIVE, as the options of the thread ask for a slave-only clock.
  -- After the first round it is in the state LISTENING, and from then on every index of the table of
  -- foreign masters lies within its array.
  pub ptpd_thread_safe :
      (n : ℕ) (s : System)
      → IsFresh s
      → IsTimed (ptpd_thread p n s)
        × (is_low (state (ptpd_thread p n s)) ≡ true)
        × (state (ptpd_thread p 1 s) ≡ listening)
        × IsSized (ptpd_thread p (suc n) s).clock
  ptpd_thread_safe n s fresh =
      (ptpd_thread-IsTimed n s fresh, at n, first, (unfold ptpd_thread in rounds-IsSized n s fresh))
    where
      at : (k : ℕ) → is_low (state (ptpd_thread p k s)) ≡ true
      at zero = unfold ptpd_thread in unfold rounds in (rw (start-kept p s).0 refl)
      at (suc k) = unfold ptpd_thread in (rounds-IsLow k s fresh).subordinate.state_low

      first : state (ptpd_thread p 1 s) ≡ listening
      first =
          unfold ptpd_thread in
          unfold rounds in do_state-listening p (start p s) (start-kept p s).0 (start-kept p s).1
