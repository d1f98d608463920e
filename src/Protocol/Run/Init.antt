-- ===== src/Protocol/Run/Init.antt =====
-- `doInit` of src/protocol.c: the clock and the timers after it.
use ptpd_lwip.Bmc.Spares.{IsSized, IsRoomy}
use ptpd_lwip.Protocol.{to_state}
use ptpd_lwip.Msg.Pack.{msg_pack_header}
use ptpd_lwip.Protocol.Decide.{is_slave_only}
use ptpd_lwip.Servo.{init_clock}
use ptpd_lwip.Types.Opt.{Timer, listening}
use ptpd_lwip.Protocol.Issue.{on_obuf}
use ptpd_lwip.Prelude.{true, Bool, ◌≡◌, sym, ◌∙◌, List, ◌||◌, refl, false, ◌==◌, ap, ◌∷◌, arith}
use ptpd_lwip.Protocol.Timers.{running}
use ptpd_lwip.Types.Clock.{PtpClock}
use ptpd_lwip.Types.DataSet.{RunTimeOpts}
use mathlib.Core.Path.{subst}
use ptpd_lwip.Protocol.Run.{do_init, initialize}
use ptpd_lwip.Net.Path.{net_init, net_shutdown}
use ptpd_lwip.Net.Path.Frame.{net_init-clock, net_shutdown-clock}
use ptpd_lwip.Bmc.Init.{init_data}
use ptpd_lwip.Bmc.Update.{m1}
use ptpd_lwip.Servo.Controller.Frame.{init_clock-IsApart}
use ptpd_lwip.Protocol.Handle.Moves.{running-Extends}
use ptpd_lwip.Types.System.{lwip_ptp_init_timers, Port, System, log, Call, on_clock}

-- The options ask for a clock that is never to be master.
abbrev pub asks_slave_only : RunTimeOpts → Bool
asks_slave_only o = o.slave_only || (o.clock_quality.clock_class == 255)

-- The clock after `initData` and `initClock`.
abbrev started : Port → System → System
started p s =
    init_clock (log lwip_ptp_init_timers (on_clock init_data (net_init p (net_shutdown p s)).1))

-- What `initData` leaves, for what follows.
init_data-kept :
    (c : PtpClock)
    → ((init_data c).port_ds.port_state ≡ c.port_ds.port_state)
      × ((init_data c).recommended_state ≡ c.recommended_state)
      × ((init_data c).rt_opts ≡ c.rt_opts)
      × (is_slave_only (init_data c) ≡ asks_slave_only c.rt_opts)
unfolding init_data
init_data-kept c = (refl, refl, refl, refl)

m1-kept :
    (c : PtpClock)
    → ((m1 c).port_ds ≡ c.port_ds)
      × ((m1 c).recommended_state ≡ c.recommended_state)
      × ((m1 c).rt_opts ≡ c.rt_opts)
      × ((m1 c).default_ds ≡ c.default_ds)
unfolding m1
m1-kept c = (refl, refl, refl, refl)

opened-clock : (p : Port) (s : System) → (net_init p (net_shutdown p s)).1.clock ≡ s.clock
opened-clock p s = net_init-clock p (net_shutdown p s) ∙ net_shutdown-clock p s

net_init-true : (p : Port) (s : System) → (net_init p s).0 ≡ true
unfolding net_init
net_init-true p s = refl

-- What `doInit` leaves: it succeeds, no timer runs, and whether the clock is never to be master is
-- what the options say.
pub record Initialized (s : System) (done : Bool) (r : System) : Type 0 where
  pub succeeds : done ≡ true
  pub state : r.clock.port_ds.port_state ≡ s.clock.port_ds.port_state
  pub recommended : r.clock.recommended_state ≡ s.clock.recommended_state
  pub options : r.clock.rt_opts ≡ s.clock.rt_opts
  pub only : is_slave_only r.clock ≡ asks_slave_only s.clock.rt_opts
  pub stopped : (t : Timer) → running t r.calls ≡ false

finished : Port → System → System
finished p s = on_obuf (λ b. msg_pack_header (m1 (started p s).clock) b) (on_clock m1 (started p s))

do_init-finished : (p : Port) (s : System) → do_init p s ≡ (true, finished p s)
do_init-finished p s = unfold do_init finished in (rw (net_init-true p (net_shutdown p s)) refl)

running-init_timers :
    (t : Timer) (calls : List Call) → running t (lwip_ptp_init_timers ∷ calls) ≡ false
unfolding running
running-init_timers t calls = refl

finished-Initialized : (p : Port) (s : System) → Initialized s true (finished p s)
unfolding finished
finished-Initialized p s =
    let before = log lwip_ptp_init_timers (on_clock init_data (net_init p (net_shutdown p s)).1) in
    let (spares, extends) = init_clock-IsApart before in
    let (port, recommended, options, default) = m1-kept (started p s).clock in
    let (st0, r0, o0, d0) = init_data-kept (net_init p (net_shutdown p s)).1.clock in
    let same = opened-clock p s in
    record {
      succeeds = refl;
      state =
          ap (λ d. d.port_state) port ∙ spares.state ∙ st0 ∙ ap (λ c. c.port_ds.port_state) same;
      recommended = recommended ∙ spares.recommended ∙ r0 ∙ ap (λ c. c.recommended_state) same;
      options = options ∙ spares.options ∙ o0 ∙ ap (λ c. c.rt_opts) same;
      only =
          ap (λ d. d.slave_only || (d.clock_quality.clock_class == 255)) (default ∙ spares.default)
          ∙ d0
          ∙ ap (λ c. asks_slave_only c.rt_opts) same;
      stopped = λ t.
          running-Extends t extends ∙ running-init_timers t (net_init p (net_shutdown p s)).1.calls;
    }

-- `doInit` succeeds, whatever lwIP says; it leaves the state and the options, and stops all timers.
pub do_init-Initialized : (p : Port) (s : System) → Initialized s (do_init p s).0 (do_init p s).1
do_init-Initialized p s =
    subst (λ r. Initialized s r.0 r.1) (sym (do_init-finished p s)) (finished-Initialized p s)

-- The case of INITIALIZING goes on to LISTENING.
pub initialize-listening :
    (p : Port) (s : System) → initialize p s ≡ to_state p listening (do_init p s).1
initialize-listening p s = unfold initialize in (rw ((do_init-Initialized p s).succeeds) refl)

-- The table of foreign masters is emptied, and its size is that of the options.
init_data-IsSized : (c : PtpClock) → IsRoomy c → IsSized (init_data c)
unfolding init_data
init_data-IsSized c v = record {
  bounds = record {
    size = v.size;
    count_in = omega arith;
    next_in = v.next_in;
    best_in = v.best_in;
  };
  capacity = refl;
}

m1-IsSized : (c : PtpClock) → IsSized c → IsSized (m1 c)
unfolding m1
m1-IsSized c v = record { bounds = v.bounds; capacity = v.capacity }

finished-IsSized : (p : Port) (s : System) → IsRoomy s.clock → IsSized (finished p s).clock
unfolding finished
finished-IsSized p s v =
    let before = log lwip_ptp_init_timers (on_clock init_data (net_init p (net_shutdown p s)).1) in
    let opened : IsRoomy (net_init p (net_shutdown p s)).1.clock =
      subst IsRoomy (sym (opened-clock p s)) v in
    let ready = m1-IsSized _ ((init_clock-IsApart before).0.table (init_data-IsSized _ opened)) in
    record { bounds = ready.bounds; capacity = ready.capacity }

pub do_init-IsSized : (p : Port) (s : System) → IsRoomy s.clock → IsSized (do_init p s).1.clock
do_init-IsSized p s v =
    subst (λ r. IsSized r.1.clock) (sym (do_init-finished p s)) (finished-IsSized p s v)
