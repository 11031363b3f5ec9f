-- ===== src/Lib.antt =====
-- KrnlSentry: a monitor that reads records of system calls from eBPF programs, decodes them into
-- events, evaluates detection rules over them and shows and logs the alerts. This library models
-- the user-space agent: the collector (ebpfloader/), the decoding of records and the reading of
-- captures (events/), the detection engine (detect/), the sinks and the dashboard (output/), and
-- the pipeline between them with its filter on a tree of processes (cmd/krnlsentry/).
--
-- How the parts interact. The collector attaches the probes, reads the ring buffer, casts each
-- record to the struct that the kernel program wrote (Raw), and decodes it into an Event. pump
-- queues the events, and drops one where 4096 wait; replay reads them from a capture instead, at
-- its own pace. process gives an event in scope to the debug log and to the engine, and each alert
-- to the sinks: the alert log, and the console or the dashboard. Engine.Evaluate gives the event
-- to the correlator, which learns who is whose parent, and to the tracker, which remembers the
-- calls that the reverse-shell rule reads and returns the history of the process. Each rule that
-- the engine runs then sees the event, that history and the configuration, and returns an alert or
-- nil. An alert goes through the correlator, which files it in a storyline and may raise an
-- attack-chain alert, and through the deduplicator, which folds repeats. The rest is returned.
--
-- Which file models which part:
-- - Events/Syscall.antt: events/syscall.go. Events/Constants.antt: events/constants.go.
--   Events/Event.antt: events/event.go (Decode is decode, decodeArgs is decode_args).
--   Events/Record.antt: events/record.go (NewRecord is new_record, Record.Event is
--   record_event_of, ReadRecords is read_records).
-- - Detect/Alert.antt: detect/alert.go. Detect/Config.antt: the configuration, the context of a
--   rule and the rules' names of detect/engine.go.
-- - Detect/Tracker.antt: detect/tracker.go (Record is record_event, Within is within). Its
--   children treat the window, the bounds, and the isolation of processes.
-- - Detect/Dedup.antt: detect/dedup.go (admit is admit on the optional deduper, admit_swept after
--   the sweep). Its children treat bounds, folding, and the spacing of emissions.
-- - Detect/Storyline.antt and its children: detect/storyline.go. Tactics has the tactics, Story
--   the steps of a story, Lineage the correlator's state, Observe and ancestry, Merge storyFor and
--   merge, Chain the texts of an attack chain; Storyline itself has Correlate. Sound and Reports
--   treat the correlator's invariant and the raising of chains.
-- - Detect/Privesc.antt, Detect/SensitiveFile.antt, Detect/Ptrace.antt, Detect/Revshell.antt: the
--   four rules, one file of detect/ each, with children on when they alert.
-- - Detect/Engine.antt: detect/engine.go (NewEngine is new_engine, Evaluate is evaluate).
-- - Loader/Decode.antt: ebpfloader/decode.go (parseRecord is parse_record; cast is the unsafe cast
--   to the struct of bpf/event.h, whose layout on a little-endian machine it reads).
--   Loader/Collector.antt: ebpfloader/loader.go and stats.go (New is new_collector, Run is
--   run_collector, Stats is collector_stats, Close is close_collector); the probes that the kernel
--   holds are passed on beside the collector.
-- - Output/Terminal.antt: the texts of a terminal line in output/dashboard.go and console.go
--   (visibleLen is visible_len, truncate, wrapChips is wrap_chips). Output/Dashboard.antt: the
--   state of the dashboard (NewDashboard is new_dashboard, Write is write, Close is close).
--   Its children Widgets, Panels, Feed and Frame are the panels of a frame, and Render (render);
--   Counters, Row, Heights and the children of Frame treat them. Output/Console.antt:
--   output/console.go (format is format_alert). Output/Sink.antt: output/sink.go and jsonl.go.
-- - Cmd/Pipeline.antt: process, pump and metricsSource of cmd/krnlsentry/main.go, pump as the
--   steps of its goroutines (arrives, takes, ends). Cmd/Setup.antt: how run makes the engine, the
--   sinks and the summary from the options. Cmd/Replay.antt: replay and pacer.
-- - Cmd/PidFilter.antt: cmd/krnlsentry/pidfilter.go (Allow is allow, newPIDFilter with the sweeps
--   of seedFromProc is new_pid_filter). Its children treat the tree of processes that it follows.
--   Cmd/ProcStat.antt: readPPID (read_ppid), lookupProc (lookup_proc) and the parents that
--   seedFromProc collects (seed_parents), in the same file.
-- - Base and its children: lists, integers, words and texts. Dict: a Go map as an association
--   list.
-- - Tests: the properties at concrete inputs.
--
-- How Go is modelled. Unsigned numbers are natural numbers; uint64 subtraction and multiplication
-- wrap where the code relies on no guard (sub64, u64_mod). An int64 is an integer (ℤ), its bits
-- are those of its two's complement (unsigned64). A time.Time is a count of nanoseconds, a
-- Duration an integer of them. A map is an association list with one entry for each key. Where the
-- order of a map shows (renderProcesses on equal counts of one PID, rules that fired and are not
-- enabled), the list stands for one order that Go may choose. A pointer
-- that may be nil is an Option. A pointer to a storyline is an index into a list of all
-- storylines, which only grows. The alerts of one event share the map of the event's arguments, so
-- share_args shows all of them the last state of the map, but for attack chains, whose map is
-- their own. The mutexes are left out: one goroutine drives the engine, and the dashboard's
-- functions hold its mutex for their whole bodies. The counters of the engine (seq, chains, total,
-- alerts) are not wrapped; those of the dashboard and of the pipeline are, at 64 bits.
--
-- Texts. A Go string is a text of characters. %q escapes quotes, backslashes and ASCII controls,
-- and leaves other characters. TrimSpace knows the spaces up to U+00A0. path.Match is modelled for
-- patterns of plain characters and stars. The text of a Duration is that of a whole number of
-- milliseconds, as the code rounds it. A json.Encoder keeps the error of a write that failed.
--
-- Bounds and fuel. The digits of a number are made by recursion on 64 rounds, enough for a 64-bit
-- number in base 2; the loop over parents has the fifteen rounds that the code allows; walk_back
-- and itoa_loop recurse on the index that the code counts down; seedFromProc has one round more
-- than /proc lists processes, since each round but the last adds one. Render has 18 rounds: a
-- layout has 17 things to give up. shrink_rule and shrink_proc have the widths that they count
-- down, and group_digits the length of its text.
--
-- Parameters: os.Stat (the field stat of the configuration, which NewEngine takes as not nil),
-- os.Getpid (an argument of default_config), the lookup of processes (ProcLookup), and for
-- captures the JSON of a line and the text of a time, and for the PID filter what /proc lists and
-- the text of its files (behind the name, a stat file is taken to be ASCII). The scanner of a
-- capture is taken to read all lines. For the sinks: the JSON of an alert or of a record, what
-- each call on a file answers (Answer), which for a write that fails says how many characters of
-- the text it wrote, the clock as text, the size of the terminal and the environment (Terminal),
-- and the quotient of a progress bar in floating point (`scaled`). For the collector: what the
-- kernel and the libraries of cilium/ebpf answer (Kernel, Reading), an error of loading with the
-- text that describeLoadError gives it. For a replay: whether the context is done at each wait,
-- how far the reader is at each event, and a gap over the speed in floating point (`paced`).
--
-- Not modelled: the kernel programs (bpf/) beyond the struct event.h, flag parsing, signals, the
-- log lines and printRules of cmd/krnlsentry/main.go, describeLoadError and the clock arithmetic
-- of bootTime, the tickers of pump and of Start, the ioctl of output/term_unix.go, the generator
-- of captures (internal/gencapture). They are I/O, presentation or another language.
pub mod Base
pub mod Dict
pub mod Events
pub mod Detect
pub mod Loader
pub mod Output
pub mod Cmd
pub mod Tests
