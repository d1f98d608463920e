-- ===== src/Lib.antt =====
-- A model of the PTP daemon for lwIP (IEEE 1588-2008): an ordinary clock that finds the best master
-- on the network, follows it with a servo, or is the master itself.
--
-- How the parts interact. A packet is read by the message handler (src/msg.c) into a header and a
-- message. Announce messages go into the table of foreign masters and, when a decision is due, the
-- best master clock algorithm (src/bmc.c) compares their senders with the local clock and recommends
-- a state, updating the data sets on the way; the port changes its state and its timers accordingly
-- (src/protocol.c). The servo (src/servo.c) filters the offset and the delay that the messages give
-- and steers the clock of the port through src/sys_time.c. Packets go out and come in through the
-- sockets of src/net.c, and the thread of src/lwip-ptp.c sets the options and calls `doState` for
-- ever. Times are pairs of signed 32-bit numbers, which src/arith.c adds, subtracts, halves and
-- converts.
--
-- The files.
-- - Prelude and its modules: tests, integers, machine words. The integers stand on the native
--   numbers; a word of w bits is an integer that `s8` to `s64` or `u8` to `u32` has wrapped.
-- - Types: the structures of src/def/datatypes_private.h and src/def/datatypes_public.h as records
--   with the same fields, and the constants of src/def/opt.h. `PtpClock` is `ptpClock_t`. Zero holds
--   the structures before anything is stored, and Sample a clock for the examples. Network has the
--   structures of the network path; System is the clock and its path with the calls that are made of
--   the port.
-- - Arith: src/arith.c. Normal relates the calculus to the number of nanoseconds that a pair stands
--   for, Convert is about timestamps, Log2 about the logarithm.
-- - Msg: src/msg.c. Bytes has the reads and writes at an offset, Pack and Unpack the functions, Header
--   and Stamp what a receiver reads in a header, RoundTrip the bodies, Footprint the extent of a
--   packer's writes.
-- - Bmc: src/bmc.c. Init is `initData`, Foreign the table, Update `m1`, `p1`, `s1` and `copyD0`,
--   Compare `bmcDataSetComparison`, Decision `bmcStateDecision` and `bmc`. Spares says what of the
--   table other stores leave as it is.
-- - SysTime: src/sys_time.c.
-- - Servo: `initClock` and `filter` of src/servo.c; Smooth is about the filter, with its arithmetic in
--   Window. Offset has `updateOffset`, `updateDelay` and `updatePeerDelay`, Controller `updateClock`.
-- - Net: `netSend` of src/net.c and the functions over it. Receive has `netRecv`, Path `netInit` and
--   `netShutdown`, Ring the callbacks, the posting of `netSend` and `netEmptyEventQ`.
-- - Protocol: `toState` of src/protocol.c, in Decide the first two `switch`es of `doState`, in
--   Issue the functions that send messages, in Handle the handlers of the messages, in Receive
--   `handle`, and in Run `doInit` and `doState`. Timers says which timers run in which state, and
--   Moves in what steps a handler changes the clock: an invariant that the steps keep is kept by
--   every handler.
-- - Daemon: `ptpd_thread` of src/lwip-ptp.c and the functions that create and alert it. Safe and
--   Once are about the thread.
--
-- The port. The functions that include/lwip-ptp.h asks of the port (its clock and its timers), `rand`
-- and lwIP are calls that the system records, the latest first; `Port` answers them, as any
-- function of the calls made before. The theorems hold for every port. Those that follow the timers
-- through a round ask for a port whose timers expire only while they run (`IsPrompt` of
-- Protocol/Moves), as include/lwip-ptp.h says of `LWIP_PTP_CHECK_TIMER`. For the system a
-- packet is what the port says has arrived in a mailbox. The ring of packets behind a mailbox is a
-- model of its own, in Net/Ring, where the mailbox is an interface with what lwIP documents of it.
--
-- Conventions. A function that writes through a pointer returns what it leaves there, and one that
-- changes the clock returns the clock. A buffer is a function from offsets to octets; `htons` and
-- `htonl` put the octets of a number in network order. Conversions to a narrower signed type and the
-- shift of a negative number do what gcc and clang document: they wrap, and they keep the sign.
-- Signed sums wrap as well; where a theorem would need them not to, it asks for the range. A
-- `foreignMasterDS_t` has counters that never turn negative, which are natural numbers here. Loops
-- are structural recursion on the number of rounds that are left. The thread never returns, and is
-- modelled for any number of rounds. Only `netEmptyEventQ` has fuel: one more than the packets that
-- wait is enough, as each round takes one.
--
-- Not modelled: debugging output with `stateString`, and the structures that no function uses. A
-- handler that ignores a message only to write a debug line does nothing here. The thread waits for
-- an address of the interface before its loop, which changes no state of the stack.
pub mod Prelude
pub mod Types
pub mod Arith
pub mod Msg
pub mod Bmc
pub mod SysTime
pub mod Servo
pub mod Net
pub mod Protocol
pub mod Daemon
