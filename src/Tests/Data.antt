-- ===== src/Tests/Data.antt =====
-- Events, histories, alerts and states that the examples share.
use krnl_sentry.Base.{ℕ, ℤ, pos, String, true, false, List, [], ◌∷◌, Option, none, some}
use krnl_sentry.Events.Event.{Event}
use krnl_sentry.Detect.Alert.{Alert}
use krnl_sentry.Detect.Config.{Config, Context, default_config}
use krnl_sentry.Detect.Tracker.{HistoryEntry, ProcessHistory, Tracker}
use krnl_sentry.Detect.Dedup.{DedupEntry, Deduper}
use krnl_sentry.Detect.Storyline.Lineage.{Correlator}

-- A call of connect.
abbrev pub connect_event : Event
connect_event = record {
  timestamp = 1000000;
  wall = pos 5000000;
  pid = 1000;
  tid = 1000;
  tgid = 1000;
  uid = 1000;
  gid = 1000;
  ppid = 900;
  comm = "testproc";
  syscall = "connect";
  syscall_id = 10;
  args = [];
  return_value = pos 0;
  is_exit = false;
  arg0 = pos 3;
  arg1 = pos 0;
  arg2 = pos 0;
  path = "";
  argv = [];
  dest_ip = "10.0.0.1";
  dest_port = 4444;
  family = 2;
}

-- A setuid(0).
abbrev pub setuid_event : Event
setuid_event = record connect_event {
  timestamp = 2000000;
  syscall = "setuid";
  syscall_id = 4;
  arg0 = pos 0;
}

-- An attach to process 77.
abbrev pub attach_event : Event
attach_event = record connect_event {
  timestamp = 3000000;
  syscall = "ptrace";
  syscall_id = 8;
  arg0 = pos 16;
  arg1 = pos 77;
}

-- An openat of the memory of process 77.
abbrev pub memory_event : Event
memory_event = record connect_event {
  timestamp = 4000000;
  syscall = "openat";
  syscall_id = 3;
  path = "/proc/77/./mem";
}

-- An execve of a shell.
abbrev pub exec_event : Event
exec_event = record connect_event {
  timestamp = 5000000;
  syscall = "execve";
  syscall_id = 1;
  path = "/bin/sh";
}

abbrev pub entry : ℕ → ℕ → ℤ → ℤ → HistoryEntry
entry syscall timestamp arg0 arg1 = record {
  syscall = syscall;
  timestamp = timestamp;
  is_exit = false;
  arg0 = arg0;
  arg1 = arg1;
  ret = pos 0;
  dest_ip = "10.0.0.1";
  dest_port = 4444;
}

-- socket, connect, dup2 onto two streams.
abbrev pub shell_calls : List HistoryEntry
shell_calls =
    entry 9 1000000 (pos 2) (pos 1)
    ∷ entry 10 2000000 (pos 3) (pos 0)
    ∷ entry 12 3000000 (pos 3) (pos 0)
    ∷ entry 12 4000000 (pos 3) (pos 1)
    ∷ []

abbrev pub shell_history : ProcessHistory
shell_history = record { pid = 1000; comm = "testproc"; entries = shell_calls; last_seen = 4000000 }

abbrev pub plain_file : String → Option ℕ
plain_file path = some 493

abbrev pub quiet_config : Config
quiet_config = default_config plain_file 1

abbrev pub context_of : Event → Context
context_of ev = record { event = ev; history = some shell_history; config = quiet_config }

-- A tracker that has seen process 1000.
abbrev pub shell_tracker : Tracker
shell_tracker = record {
  procs = (1000, shell_history) ∷ [];
  depth = 32;
  ttl = 30000000000;
  sweep_every = 5000000000;
  max_processes = 8192;
  last_sweep = 0;
}

abbrev pub setuid_alert : Alert
setuid_alert = record {
  timestamp = pos 5000000;
  pid = 1000;
  tid = 1000;
  ppid = 900;
  comm = "testproc";
  uid = 1000;
  gid = 1000;
  syscall = "setuid";
  args = [];
  mitre_id = "T1548";
  mitre_technique = "Abuse Elevation Control Mechanism";
  severity = 2;
  description = "";
  rule = "privilege-escalation";
  storyline = "";
  suppressed = 0;
  story = [];
}

abbrev pub first_emission : DedupEntry
first_emission = record { first_ts = 1000; suppressed = 0 }

-- A deduplicator that has emitted one key.
abbrev pub used_deduper : String → Deduper
used_deduper key = record {
  window = 5000000000;
  seen = (key, first_emission) ∷ [];
  last_sweep = 1000;
  total = 0;
}

abbrev pub fresh_correlator : Correlator
fresh_correlator = record {
  cfg = record { enabled = true; threshold = pos 3; window = pos 600000000000; lookup = none };
  lineage = [];
  by_pid = [];
  stories = [];
  seq = 0;
  last_sweep = 0;
  chains = 0;
}
