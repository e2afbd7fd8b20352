-- ===== src/PcapFsn/Main.antt =====
-- `main` in pcap-fsnotify/main.go: its start, and the loop over events and the last flush, as one of
-- its threads after the other. `PcapFsn.Shutdown` has all orders of the threads.
pub mod Outcomes
pub mod Arrives
use cloud_run_tcpdump.Prelude.{
  ◌==◌, if◌then◌else◌, ℕ, ◌*◌, ◌%◌, ◌^◌, Bool, true, false, not, Option, none, some, List,
}
use cloud_run_tcpdump.Text.{Text, comma, split}
use cloud_run_tcpdump.PcapFsn.Move.{Fs, Faults, Target}
use cloud_run_tcpdump.PcapFsn.Export.{Haxmap, Config, State}
use cloud_run_tcpdump.PcapFsn.Loop.{Turn, Loop, run_loop}
use cloud_run_tcpdump.Tcpdumpw.Main.{is_positive}
use cloud_run_tcpdump.PcapFsn.FlushDir.{Entry, flush_src_dir}

-- The options of the command line that the moves and exports read.
pub record Flags : Type 0 where
  pub src_dir : Text
  pub gcs_dir : Text
  pub pcap_ext : Text
  pub gzip : Bool
  pub interval : ℕ

-- The extensions of the pattern `pcapDotExt`.
unfoldable pub config_of : Flags → Config
config_of flags = record {
  src_dir = flags.src_dir;
  gcs_dir = flags.gcs_dir;
  exts = split flags.pcap_ext comma;
}

-- `watchdogInterval`, the bits of a signed number of nanoseconds.
unfoldable pub interval_bits : Flags → ℕ
interval_bits flags = (flags.interval * 1000000000) % 2 ^ 64

-- What the calls of `fsnotify` return, and what the file system does in the last flush.
pub record Env : Type 0 where
  pub watcher_fails : Bool
  pub add_fails : Bool
  pub flush_faults : Text → Faults

-- It exits with a code, waits for the context for ever, panics, or ends, with the number of files, the
-- state behind, and what the flushing calls return.
pub data Outcome (H : Haxmap) : Type 0 where
  exits : ℕ → Outcome H
  waits panics : Outcome H
  ended : ℕ → State H → List Bool → Outcome H

module _ (H : Haxmap) (T : Target) (flags : Flags) (env : Env) where
  abbrev pub flushed : Option (ℕ × State H × List Bool) → Outcome H
  flushed none = panics
  flushed (some (count, s, results)) = ended count s results

  -- Behind the start of the threads: the context is waited for, and every file is flushed, without
  -- compression and without removal.
  unfoldable pub watch : List Turn → List Entry → Loop H → Outcome H
  watch ts entries s =
      let behind = run_loop H T (config_of flags) flags.gzip ts s in
      if behind.cancels == 0
      then waits
      else flushed
          (flush_src_dir H T (config_of flags) env.flush_faults (λ e. true) entries behind.state)

  module _ (counters : H.Counters) (last_pcap : H.Files) where
    -- The loop begins with the new maps. It is active if the directory is watched.
    unfoldable pub begin : Fs → Loop H
    begin fs = record {
      state = record {
        counters = counters;
        last_pcap = last_pcap;
        is_active = not env.add_fails;
        fs = fs;
      };
      cancels = 0;
      runs = true;
      ticker_stopped = false;
    }

    -- `time.NewTicker` panics for an interval that is not positive.
    unfoldable pub main : List Turn → List Entry → Fs → Outcome H
    main ts entries fs =
        if env.watcher_fails
        then exits 1
        else if not (is_positive (interval_bits flags))
        then panics
        else watch ts entries (begin fs)
