-- ===== src/PcapFsn/Export/Lines.antt =====
-- What `exportPcapFile` in pcap-fsnotify/main.go logs. The functions branch as those of `PcapFsn.Export`
-- do.
use cloud_run_tcpdump.Prelude.{
  ◌==◌, if◌then◌else◌, ℕ, Bool, true, false, ◌&&◌, Option, none, some, List, [], ◌∷◌, ◌++◌,
}
use cloud_run_tcpdump.Text.{Text, codes, text_eq}
use cloud_run_tcpdump.Text.Decimal.{decimal}
use cloud_run_tcpdump.PcapFsn.Log.{
  Source, info, error, failed, created, exported, queued, Entry, log_fs_event,
}
use cloud_run_tcpdump.PcapFsn.FileName.{Match, find_submatch, key_of}
use cloud_run_tcpdump.PcapFsn.Move.{
  Faults, Target, Failure, open_failed, create_failed, copy_failed, Moved, move_pcap_to_gcs,
}
use cloud_run_tcpdump.PcapFsn.Move.Lines.{Errors, move_lines}
use cloud_run_tcpdump.PcapFsn.Export.{Haxmap, Config, State, export_pcap_file}
use cloud_run_tcpdump.PcapFsn.Export.Run.{Event}

-- `iface`, `fmt.Sprintf("%s:%s", rMatch[1], rMatch[2])`
abbrev pub iface_of : Match → Text
iface_of m = m.index ++ (codes ":" ++ m.iface)

-- `[%s]`, `(%s/%s)` and `(%s/%s/%d)`, each with the text behind it.
abbrev pub in_key : Match → Text → Text
in_key m rest = codes "[" ++ (key_of m ++ (codes "] " ++ rest))

abbrev pub in_iface : Match → Text → Text
in_iface m rest = codes "(" ++ (m.ext ++ (codes "/" ++ (iface_of m ++ (codes ") " ++ rest))))

abbrev pub in_turn : Match → ℕ → Text → Text
in_turn m n rest =
    codes "("
    ++ (m.ext ++ (codes "/" ++ (iface_of m ++ (codes "/" ++ (decimal n ++ (codes ") " ++ rest))))))

-- The error that `movePcapToGcs` returns.
abbrev pub error_text : Text → Text → Failure → Text
error_text src target open_failed = codes "failed to open source pcap: " ++ src
error_text src target create_failed = codes "failed to create destination pcap: " ++ target
error_text src target copy_failed =
    codes "failed to copy '" ++ (src ++ (codes "' into '" ++ (target ++ codes "'")))

module _ (log : Source) (errors : Errors) (H : Haxmap) (T : Target) (cfg : Config) (faults : Faults)
    (compress delete : Bool) where
  unfoldable pub flushed_lines : Match → Text → Moved → Option Failure → List Entry
  flushed_lines m src moved none =
      log_fs_event log info (codes "flushed PCAP file: " ++ in_iface m moved.target) exported src
        moved.target moved.bytes none
      ∷ []
  flushed_lines m src moved (some failure) =
      log_fs_event log error (codes "failed to flush PCAP file: " ++ in_iface m src) failed src
        moved.target 0 (some (error_text src moved.target failure))
      ∷ []

  -- The branch for `flush`.
  unfoldable pub flush_lines : Match → Text → State H → List Entry
  flush_lines m src s =
      let moved = (move_pcap_to_gcs T faults src cfg.gcs_dir compress delete s.fs).1 in
      log_fs_event log info (codes "flushing PCAP file: " ++ in_key m (in_iface m src)) exported src
        [] 0 none
      ∷ (move_lines log errors T faults src cfg.gcs_dir compress delete s.fs
          ++ flushed_lines m src moved moved.error)

  unfoldable pub exported_line : Match → ℕ → Text → Moved → Option Failure → Entry
  exported_line m iteration last moved none =
      log_fs_event log info (codes "exported PCAP file: " ++ in_turn m iteration moved.target)
        exported last moved.target moved.bytes none
  exported_line m iteration last moved (some failure) =
      log_fs_event log error (codes "failed to export PCAP file: " ++ in_turn m iteration last)
        exported last moved.target 0 (some (error_text last moved.target failure))

  unfoldable pub queue_lines : Match → ℕ → Text → Bool → List Entry
  queue_lines m iteration src true =
      log_fs_event log info (codes "queued PCAP file: " ++ in_turn m iteration src) queued src [] 0
        none
      ∷ []
  queue_lines m iteration src false =
      log_fs_event log error (codes "leaked PCAP file: " ++ in_key m (in_turn m iteration src))
        failed src [] 0 none
      ∷ log_fs_event log info (codes "queued PCAP file: " ++ in_turn m iteration src) queued src []
          0 none
      ∷ []

  -- The end of the function.
  unfoldable pub rotate_lines : Match → ℕ → Text → Text → State H → List Entry
  rotate_lines m iteration src last s =
      let moved = (move_pcap_to_gcs T faults last cfg.gcs_dir compress delete s.fs).1 in
      let swapped = (H.compare_and_swap (key_of m) last src s.last_pcap).1 in
      log_fs_event log info (codes "exporting PCAP file: " ++ in_turn m iteration src) exported last
        [] 0 none
      ∷ (move_lines log errors T faults last cfg.gcs_dir compress delete s.fs
          ++ (exported_line m iteration last moved moved.error
              ∷ queue_lines m iteration src swapped))

  unfoldable pub unavailable_lines : Match → ℕ → Text → List Entry
  unavailable_lines m iteration src =
      log_fs_event log error
        (codes "PCAP file " ++ in_key m (in_turn m iteration (codes "unavailable"))) exported [] src
        0 none
      ∷ []

  unfoldable pub loaded_lines : Match → ℕ → Text → Option Text → State H → List Entry
  loaded_lines m iteration src none s = unavailable_lines m iteration src
  loaded_lines m iteration src (some last) s =
      if text_eq last []
      then unavailable_lines m iteration src
      else rotate_lines m iteration src last s

  -- Behind the branch for `flush`.
  unfoldable pub detect_lines : Match → Text → State H → List Entry
  detect_lines m src s =
      let (counters, iteration) = H.increment (key_of m) s.counters in
      let counted : State H = record s { counters = counters } in
      log_fs_event log info (codes "new PCAP file detected: " ++ in_key m (in_turn m iteration src))
        created src [] 0 none
      ∷ (if iteration == 1
          then []
          else loaded_lines m iteration src (H.get (key_of m) s.last_pcap) counted)

  unfoldable pub match_lines : Option Match → Text → Bool → State H → List Entry
  match_lines none src flush s = []
  match_lines (some m) src flush s = if flush then flush_lines m src s else detect_lines m src s

  unfoldable pub export_lines : Text → Bool → State H → List Entry
  export_lines src flush s =
      if flush && s.is_active
      then []
      else match_lines (find_submatch cfg.src_dir cfg.exts src) src flush s

-- The entries of the regular calls for a sequence of new files, one after the other.
module _ (log : Source) (errors : Errors) (H : Haxmap) (T : Target) (cfg : Config)
    (compress delete : Bool) where
  unfoldable pub run_lines : List Event → State H → List Entry
  run_lines [] s = []
  run_lines (e ∷ es) s =
      let s' = (export_pcap_file H T cfg e.faults compress delete e.name false s).0 in
      export_lines log errors H T cfg e.faults compress delete e.name false s ++ run_lines es s'
