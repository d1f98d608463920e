-- ===== src/Protocol/Moves.antt =====
-- What the handlers of src/protocol.c can do to the port, as a relation between the system before
-- and after.
use ptpd_lwip.Protocol.{start_timer, to_state}
use ptpd_lwip.Protocol.Timers.{has_timer, running}
use ptpd_lwip.Types.Opt.{Timer, faulty, PortState}
use ptpd_lwip.Prelude.{
  ◌∙◌, ◌≡◌, List, ap, ◌⊎◌, refl, Bool, true, inl, false, inr, sym, ℕ, if◌then◌else◌,
}
use ptpd_lwip.Types.System.{Port, System, Call}
use ptpd_lwip.Bmc.Spares.{IsSized, Spares}
use ptpd_lwip.Protocol.Timers.Agree.{IsTimed, mechanism}
use ptpd_lwip.Protocol.Timers.Agree.Kept.{to_state-kept, to_state-table, to_state-options}
use ptpd_lwip.Protocol.Issue.Timed.{fault-IsTimed, restart-IsTimed}
use ptpd_lwip.Protocol.Decide.Subordinate.{IsSubordinate, to_state-IsSubordinate}

-- A handler stores in the clock and makes calls that are not about timers, starts a timer of the
-- state again, finds a fault, or does one after another.
pub data Moves (p : Port) : System → System → Type 0 where
  stores :
      {s r : System}
      → Spares s.clock r.clock
      → ((t : Timer) → running t r.calls ≡ running t s.calls)
      → Moves p s r
  restarts :
      {s : System} (t : Timer) (ms : ℕ)
      → has_timer (mechanism s) s.clock.port_ds.port_state t ≡ true
      → Moves p s (start_timer t ms s)
  faults : {s : System} → Moves p s (to_state p faulty s)
  follows : {s r q : System} → Moves p s r → Moves p r q → Moves p s q

-- A timer that has expired was started, and was not stopped since.
pub record IsPrompt (p : Port) : Type 0 where
  pub runs : (calls : List Call) (t : Timer) → p.expired calls t ≡ true → running t calls ≡ true

pub Moves-IsTimed : {p : Port} {s r : System} → Moves p s r → IsTimed s → IsTimed r
Moves-IsTimed (stores {s} {r} spares timers) timed = record {
  timers = λ t.
      timers t
      ∙ timed.timers t
      ∙ ap (λ m. has_timer m s.clock.port_ds.port_state t) (sym spares.delay)
      ∙ ap (λ st. has_timer (mechanism r) st t) (sym spares.state);
}
Moves-IsTimed (restarts {s} t ms has) timed = restart-IsTimed t ms s has timed
Moves-IsTimed {p} (faults {s}) timed = fault-IsTimed p s timed
Moves-IsTimed (follows m n) timed = Moves-IsTimed n (Moves-IsTimed m timed)

pub Moves-IsSubordinate :
    {p : Port} {s r : System} → Moves p s r → IsSubordinate s → IsSubordinate r
Moves-IsSubordinate (stores spares timers) sub = record {
  only = rw spares.default sub.only;
  state_low = rw spares.state sub.state_low;
  recommended_low = rw spares.recommended sub.recommended_low;
}
Moves-IsSubordinate (restarts t ms has) sub = record {
  only = sub.only;
  state_low = sub.state_low;
  recommended_low = sub.recommended_low;
}
Moves-IsSubordinate {p} (faults {s}) sub = to_state-IsSubordinate p faulty s refl sub
Moves-IsSubordinate (follows m n) sub = Moves-IsSubordinate n (Moves-IsSubordinate m sub)

pub Moves-options : {p : Port} {s r : System} → Moves p s r → r.clock.rt_opts ≡ s.clock.rt_opts
Moves-options (stores spares timers) = spares.options
Moves-options (restarts t ms has) = refl
Moves-options {p} (faults {s}) = to_state-options p faulty s
Moves-options (follows m n) = Moves-options n ∙ Moves-options m

pub to_state-IsSized :
    (p : Port) (st : PortState) (s : System) → IsSized s.clock → IsSized (to_state p st s).clock
to_state-IsSized p st s v = record {
  bounds = rw (to_state-table p st s) v.bounds;
  capacity = rw (to_state-table p st s, to_state-options p st s) v.capacity;
}

pub Moves-IsSized : {p : Port} {s r : System} → Moves p s r → IsSized s.clock → IsSized r.clock
Moves-IsSized (stores spares timers) v = spares.table v
Moves-IsSized (restarts t ms has) v = v
Moves-IsSized {p} (faults {s}) v = to_state-IsSized p faulty s v
Moves-IsSized (follows m n) v = Moves-IsSized n (Moves-IsSized m v)

-- The state stays, or it is FAULTY.
pub Moves-state :
    {p : Port} {s r : System}
    → Moves p s r
    → (r.clock.port_ds.port_state ≡ s.clock.port_ds.port_state)
      ⊎ (r.clock.port_ds.port_state ≡ faulty)
Moves-state (stores spares timers) = inl spares.state
Moves-state (restarts t ms has) = inl refl
Moves-state {p} (faults {s}) = inr (to_state-kept p faulty s).0
Moves-state (follows m n) = elim (Moves-state n) [
  | inl same ↦ elim (Moves-state m) [ inl e ↦ inl (same ∙ e) | inr e ↦ inr (same ∙ e) ]
  | inr e ↦ inr e
]

module _ {p : Port} where
  -- What changes neither the clock nor the timers.
  pub only_calls :
      {s r : System}
      → r.clock ≡ s.clock
      → ((t : Timer) → running t r.calls ≡ running t s.calls)
      → Moves p s r
  only_calls {s} e timers =
      stores
        (record {
          state = ap (λ c. c.port_ds.port_state) e;
          delay = ap (λ c. c.port_ds.delay_mechanism) e;
          default = ap (λ c. c.default_ds) e;
          recommended = ap (λ c. c.recommended_state) e;
          options = ap (λ c. c.rt_opts) e;
          table = λ v. rw e v;
        })
        timers

  pub idle : (s : System) → Moves p s s
  idle s = only_calls refl (λ t. refl)

  -- A test that the code makes.
  pub either :
      {s : System} (b : Bool) {x y : System}
      → (b ≡ true → Moves p s x)
      → (b ≡ false → Moves p s y)
      → Moves p s (if b then x else y)
  either true m n = m refl
  either false m n = n refl
