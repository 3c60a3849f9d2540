-- ===== src/Lib.antt =====
-- The SIM connectivity monitor: a daemon on a small computer that keeps a cellular connection up. It
-- finds the modem, reads the SIM, chooses a profile by the ICCID, writes the profile's contexts to
-- the modem, lets NetworkManager connect, watches the connection, and climbs a ladder of recoveries
-- when it fails. A tick of its loop reads the modem's events, handles the commands of the web
-- interface, runs the handler of its state, and fetches text messages.
--
-- The files and what they model (the paths in brackets are under src/sim_monitor):
--   Core/Daemon (core/daemon.py): Machine has the daemon's attributes as a record and
--     the helpers _go, _fail and _safe_disconnect; Reset has _drop_modem, _full_reset_modem,
--     _reevaluate_profile, _select_profile and _reload_profiles; Fallback the fallback test and its
--     arming; Ports the serial ports; Attach the handlers from NO_MODEM to CONFIGURING; Connect that
--     of CONNECTING and Online that of CONNECTED; Recovery those of DEGRADED and FALLBACK_TEST with
--     BUILTIN_DEFAULT; Sms the modem's events and text messages; Requests the deletion of messages
--     and diagnostics; Tick the commands and the tick. A method keeps its name without the leading
--     underscore, and a part of a method that branches on a computed value is a helper beside it.
--   Core/Daemon/Env: what the daemon calls (the clocks, ModemDriver, ModemDetector, NetworkBackend,
--     Database), as a record of functions on a state of the world of any type. A call returns, or
--     raises ModemError, BackendError or another exception; nothing else is assumed of it.
--   Core/Exec: Python code that changes an object and may raise: what was written before a raise
--     stays. Core/Exec/Keeps and Core/Exec/Leads have the rules for what such code keeps true and
--     where it leads.
--   Core/Daemon/Quiet, QuietSms, Passive, Live, Held, Letting, Obeying, Holding, Aside, Testing,
--     Limits, Resets: the proofs about the daemon, by what they prove.
--   Core/Supervisor (core/supervisor.py), Core/States, Core/Commands, Core/Snapshot and
--     Core/Status (core/state_store.py; Lines has the proofs), Core/Reply (core/sms_reply.py),
--     Core/Uptime (core/uptime.py).
--   Config/Schema (config/schema.py), Config/Matcher (config/matcher.py).
--   Modem/Reconcile (modem/pdp_reconcile.py), Modem/OtaSms (modem/ota_sms.py).
--   Modem/Pdu (modem/pdu.py): Hex, Alphabet, Septets, Address, Utf16, UserData, Decode and Encode
--     have the codec, with octets and septets as numbers; the other modules have the proofs. Digits,
--     Packing and Unpacking compare the packing loops with the digits of one number; Received,
--     Message, Whole and Submitted read the PDUs that are sent as a receiver does, who gets the
--     header bit, the coding and the user data as they are and joins the texts of the parts.
--   Modem/Sms (modem/sms.py): the reassembly of stored PDUs; Groups, Alike, Arrival,
--     Reordered and Rows have the proofs.
--   Modem/AtParser (modem/at_parser.py): Scan has the scanners that stand for regular expressions,
--     Replies, Contexts, Urcs, ServingCell, Radio and Listing the parsers; Fields and Relisting have
--     the proofs. Modem/AtChannel (modem/at_channel.py): the lines of an answer; Sorting has the
--     proofs. Modem/AtDriver (modem/at_driver.py): the commands for a context; Relisted has the proofs.
--   Monitor/Schedule (monitor/schedule.py); Monitor/Placeholders (monitor/placeholders.py): tokens in
--     templates, and in Body the structured bodies; Pieces, Paths and Fields have the proofs.
--   Scan/Manager (scan/manager.py): the state of a scan, _launch, stop and _run; Workers has the
--     workers on the answers of the engine, Simulated those of the simulation, Single the
--     interleavings of threads as a step relation, Ending and Discovery what a scan leaves behind.
--   Storage/TrafficFlows (storage/db.py): the table of the traffic audit; Live, Pruning and Capping
--     have the proofs. Traffic/Flow and Traffic/Line (traffic/parse.py): the direction of a flow, and
--     the lines of conntrack; Words, Spelled, Front and Printed have the proofs. Traffic/Ledger,
--     State and Collector (traffic/collector.py): the bookkeeping, the object and the methods;
--     Agrees, Truthful and Ticks have the proofs.
--   The modules called Tests run the models on concrete inputs; Core/Daemon/Fixture has a world for
--     it.
--   Prelude: names of the libraries, Boolean tests, lists, texts as lists of code points, integers,
--     decimal numbers, sorting by insertion and association lists, which stand for Python's own.
--
-- The daemon uses the supervisor for the wait and the action of a recovery, the matcher for the
-- profile, the reconciliation for the contexts and the reply rules for text messages; all of them
-- are called by the models of the handlers as by the code.
--
-- Bounds: times are whole numbers and never negative; the differences `now - t >= n` are written as
-- `t + n <= now`. The loops are structural: the radio is switched on in three attempts, the SIM is
-- polled once for each second of the settle time and at least once, and diagnostics take twenty
-- commands at most. Three loops of the PDU codec run on fuel: the inner loop of the packing on the
-- number of pending bits, of which a round takes some; the slices on the length of the list, for no
-- slice is empty; and the information elements of a header on its length; a result below
-- shows that the loop over them is over before.
--
-- Not modelled: the constructor and the thread around the tick, texts of log messages, wall-clock
-- stamps of the snapshot, characters beyond ASCII in case folding, the other tables of the database
-- and a failing disk, the latency statistics, whose figures are floats, the serial port and the
-- vendors' drivers, the monitors, the engine of the network scan, the calls of the system's tools,
-- the profile files and the web interface: they do input and output, or stand behind the calls
-- above.
pub mod Prelude
pub mod Config
pub mod Modem
pub mod Monitor
pub mod Scan
pub mod Storage
pub mod Traffic
pub mod Core
