-- ===== src/Tests/Loop.antt =====
-- The loop over events of the watcher, and its log, at concrete values.
use cloud_run_tcpdump.Prelude.{
  none, ℕ, Bool, some, ◌≡◌, refl, true, false, List, [], ◌∷◌, map, length, arith,
}
use cloud_run_tcpdump.Text.{Text, codes, is_digit, contains, text_eq, split, push}
use cloud_run_tcpdump.PcapFsn.Log.{Source}
use cloud_run_tcpdump.PcapFsn.FileName.{
  find_submatch, strip_prefix, read_index, read_iface, read_tail, strip_shape,
}
use cloud_run_tcpdump.PcapFsn.Move.Lines.{Errors}
use cloud_run_tcpdump.PcapFsn.Move.Replay.{replay}
use cloud_run_tcpdump.PcapFsn.Export.Lines.{run_lines}
use cloud_run_tcpdump.PcapFsn.FlushDir.Lines.{flush_all_lines, run-flush_all_lines-replay}
use cloud_run_tcpdump.PcapFsn.Export.Run.{run}
use cloud_run_tcpdump.PcapFsn.Loop.{Received, event, error, Loop, is_exit_signal, is_pcap, run_loop}
use cloud_run_tcpdump.PcapFsn.Loop.Stops.{
  calm, first_stop, exported_before, finish, exporting, run_loop-first_stop,
}
use cloud_run_tcpdump.PcapFsn.Loop.Signal.{is_exit_signal-exit_signal}
use cloud_run_tcpdump.Tcpdumpw.Main.{exit_signal}
use cloud_run_tcpdump.Tests.Data.{
  fs, haxmap-IsHaxmap, haxmap, target, no_faults, config, first_file, second_file, state, events,
}
use cloud_run_tcpdump.PcapFsn.Export.{State}
use cloud_run_tcpdump.PcapFsn.Move.{target_of}
use cloud_run_tcpdump.PcapFsn.FlushDir.{Entry, flush_all}
use cloud_run_tcpdump.PcapFsn.FlushDir.Arrives.{Arrived}
use cloud_run_tcpdump.Tcpdumpw.Main.{is_positive}
use cloud_run_tcpdump.PcapFsn.Main.{
  interval_bits, Flags, config_of, Env, Outcome, ended, begin, main,
}
use cloud_run_tcpdump.PcapFsn.Main.Arrives.{main-Arrived}
use cloud_run_tcpdump.PcapFsn.Main.Outcomes.{stopped_by, main-stopped_by}

-- Two files, an error, the exit signal, and a file behind it.
abbrev received : List Received
received =
    event true first_file no_faults
    ∷ error
    ∷ event true second_file no_faults
    ∷ event true (codes "/tmp/TCPDUMPW_EXITED") no_faults
    ∷ event true (codes "/tmp/part__1_eth0__20240102T030605.pcap") no_faults
    ∷ []

abbrev begun : Loop haxmap
begun = record { state = state; cancels = 0; runs = true; ticker_stopped = false }

run_loop-first_stop_example :
    run_loop haxmap target config false (map calm received) begun
    ≡ finish haxmap target config false
        (first_stop config received)
        (exporting haxmap target config false (exported_before config received) begun)
run_loop-first_stop_example =
    run_loop-first_stop haxmap target config false received begun refl refl

signal_exports_both : length (exported_before config received) ≡ 2
unfolding is_exit_signal is_pcap find_submatch strip_prefix read_index is_digit read_iface read_tail
    strip_shape contains text_eq
signal_exports_both = refl

is_exit_signal-exit_signal_example :
    (is_exit_signal config (exit_signal config.src_dir) ≡ true)
    × (is_pcap config (exit_signal config.src_dir) ≡ false)
    × ((name : Text) → is_pcap config name ≡ true → is_exit_signal config name ≡ false)
is_exit_signal-exit_signal_example = is_exit_signal-exit_signal config

abbrev source : Source
source = record {
  sidecar = codes "sidecar";
  module_name = codes "fsnotify";
  project_id = codes "project";
  service = codes "service";
  gcp_region = codes "region";
  version = codes "1";
  instance_id = codes "i1";
}

abbrev errors : Errors
errors = record {
  open_error = codes "open";
  create_error = codes "create";
  copy_error = codes "copy";
  remove_error = codes "remove";
}

abbrev rotated : State haxmap
rotated = (run haxmap target config true true events state).0

-- The second file waits, and is flushed.
run-flush_all_lines-replay_example :
    replay target false
      (flush_all_lines source errors haxmap target config
        (λ p. no_faults)
        (second_file ∷ [])
        (record rotated { is_active = false }))
      (replay target true
        (run_lines source errors haxmap target config true true events state)
        state.fs.file)
    ≡ (flush_all haxmap target config
        (λ p. no_faults)
        (second_file ∷ [])
        (record rotated { is_active = false })).0.fs.file
run-flush_all_lines-replay_example =
    run-flush_all_lines-replay source errors haxmap target config true true events (λ p. no_faults)
      (second_file ∷ []) state refl (λ p. refl)

-- The directory, the second file, which waits, and a file that is none of tcpdump.
abbrev entries : List Entry
entries =
    record { path = codes "/tmp"; is_dir = some true; failed = false }
    ∷ record { path = second_file; is_dir = some false; failed = false }
    ∷ record { path = codes "/tmp/notes"; is_dir = some false; failed = false }
    ∷ []

abbrev flags : Flags
flags = record {
  src_dir = codes "/tmp";
  gcs_dir = codes "/gcs";
  pcap_ext = codes "pcap,json";
  gzip = true;
  interval = 60;
}

abbrev env : Env
env = record { watcher_fails = false; add_fails = false; flush_faults = λ p. no_faults }

abbrev outcome : Outcome haxmap
outcome = main haxmap target flags env (λ k. 0) (λ k. none) (map calm received) entries fs

-- The second file waits behind the exports, and is flushed.
main-Arrived_example :
    (count : ℕ) × (behind : State haxmap) × (results : List Bool) × (outcome
      ≡ ended count behind results)
    × Arrived target (config_of flags) true second_file (4 ∷ []) behind.fs
unfolding is_exit_signal is_pcap find_submatch strip_prefix read_index is_digit read_iface read_tail
    strip_shape contains text_eq target_of split push config_of is_positive interval_bits
main-Arrived_example =
    main-Arrived haxmap haxmap-IsHaxmap target flags env (λ k. 0) (λ k. none) received fs entries
      (codes "/tmp/TCPDUMPW_EXITED") no_faults second_file (4 ∷ []) refl refl refl (λ k. refl)
      (λ k. refl) (omega arith) refl refl refl refl refl refl (λ p. refl) refl refl (λ e. refl)

main-stopped_by_example :
    outcome
    ≡ stopped_by haxmap target flags env (first_stop (config_of flags) received) entries (
        exporting haxmap target
          (config_of flags)
          true
          (exported_before (config_of flags) received)
          (begin haxmap target flags env (λ k. 0) (λ k. none) fs))
unfolding is_pcap is_positive find_submatch interval_bits
main-stopped_by_example =
    main-stopped_by haxmap target flags env (λ k. 0) (λ k. none) received entries fs
