-- ===== src/Tcpdumpw/Main.antt =====
-- `main` in tcpdumpw/main.go, up to the start of the capture: the filters that are chosen, the tasks,
-- and the checks that end the program with a code of their own.
pub mod Codes
use cloud_run_tcpdump.Prelude.{
  ltb, ◌==◌, if◌then◌else◌, length, ℕ, ◌*◌, ◌%◌, ◌^◌, Bool, true, false, not, ◌&&◌, ◌||◌, ◌++◌,
}
use cloud_run_tcpdump.Tcpdumpw.Tasks.{Engines, TaskOptions, create_tasks}
use cloud_run_tcpdump.Text.{Text, codes}
use cloud_run_tcpdump.Ext.{StringFormatter, Mapset, Pcap, Netip}
use cloud_run_tcpdump.Tcpdumpw.Setup.{Options, choose}
use cloud_run_tcpdump.Tcpdumpw.Ephemeral.{parse_ephemeral_ports}
use cloud_run_tcpdump.Tcpdumpw.Run as Run

-- The flags of the command line that `createTasks` gets, those for the filters among them, and the
-- variables `PCAP_IFACE` and `GCP_GAE` of the environment.
pub record Flags : Type 0 where
  pub filters : Options
  pub ephemerals : Text
  pub iface_env : Text
  pub gae_env : Text
  pub iface : Text
  pub timezone : Text
  pub directory : Text
  pub extension : Text
  pub snaplen : ℕ
  pub interval : ℕ
  pub tcp_dump : Bool
  pub json_dump : Bool
  pub json_log : Bool
  pub is_ordered : Bool
  pub conntrack : Bool
  pub gcp_gae : Bool

-- What the flags say of the run, the duration in the bits of a signed number of seconds, and what the
-- calls of the lock and of the scheduler return: `TryLock`, `NewScheduler` and `NewJob`.
pub record Env : Type 0 where
  pub use_cron : Bool
  pub duration : ℕ
  pub locked : Bool
  pub lock_failed : Bool
  pub scheduler_failed : Bool
  pub job_failed : Bool

-- The program has ended with a code, with the lock taken or not, or it captures.
pub data Outcome : Type 0 where
  exit : ℕ → Bool → Outcome
  captures : Run.Sys → Outcome

-- `time.Duration(*duration) * time.Second`, in 64 bits, and `*timeout > 0` of `start`.
unfoldable pub timeout_of : ℕ → ℕ
timeout_of duration = (duration * 1000000000) % 2 ^ 64

unfoldable pub is_positive : ℕ → Bool
is_positive bits = ltb 0 bits && ltb bits (2 ^ 63)

-- `exitSignal`, the file that `waitDone` creates.
unfoldable pub exit_signal : Text → Text
exit_signal directory = directory ++ codes "/TCPDUMPW_EXITED"

-- Behind the lock. Without the scheduler the capture starts at once.
unfoldable pub schedule : Env → ℕ → Outcome
schedule env tasks =
    let has_timeout = is_positive (timeout_of env.duration) in
    if not env.use_cron
    then captures (Run.launch false tasks has_timeout)
    else if env.scheduler_failed
    then exit 3 true
    else if env.job_failed
    then exit 4 true
    else captures (Run.launch true tasks has_timeout)

unfoldable pub begin : Env → ℕ → Outcome
begin env tasks =
    if tasks == 0
    then exit 1 false
    else if not env.locked || env.lock_failed
    then exit 2 false
    else schedule env tasks

module _ (F : StringFormatter) (S : Mapset) (C : Pcap) (N : Netip) where
  -- The arguments of `createTasks`.
  unfoldable pub task_options : Flags → TaskOptions
  task_options f =
      let (filter, chosen) = choose F S C N f.filters in
      record {
        iface_env = f.iface_env;
        gae_env = f.gae_env;
        iface_prefix = f.iface;
        timezone = f.timezone;
        directory = f.directory;
        extension = f.extension;
        filter = filter;
        filters = chosen.filters;
        compat_filters = chosen.calls;
        snaplen = f.snaplen;
        interval = f.interval;
        compat = f.filters.compat;
        tcp_dump = f.tcp_dump;
        json_dump = f.json_dump;
        json_log = f.json_log;
        is_ordered = f.is_ordered;
        conntrack = f.conntrack;
        gcp_gae = f.gcp_gae;
        ephemerals = parse_ephemeral_ports C f.ephemerals;
      }

  unfoldable pub main : Engines → Flags → Env → Outcome
  main E f env = begin env (length (create_tasks E (task_options f)))
