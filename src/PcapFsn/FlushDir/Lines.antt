-- ===== src/PcapFsn/FlushDir/Lines.antt =====
-- The log of the flushing calls that `flushSrcDir` in pcap-fsnotify/main.go starts, and what it tells
-- together with the one of the exports before.
use cloud_run_tcpdump.Prelude.{
  ◌&&◌, Option-cases, ◌≡◌, refl, ap, ◌∙◌, inl, inr, Bool, true, false, all, if◌then◌else◌, Option,
  none, some, List, [], ◌∷◌, ◌++◌, arith,
}
use cloud_run_tcpdump.Text.{Text}
use cloud_run_tcpdump.PcapFsn.Log.{Source, info, error, PcapEvent, failed, Entry}
use cloud_run_tcpdump.PcapFsn.FileName.{Match, find_submatch, strip_prefix}
use cloud_run_tcpdump.PcapFsn.Move.{Faults, Target, move_pcap_to_gcs, is_none, Moved, Failure}
use cloud_run_tcpdump.PcapFsn.Move.Lines.{Errors, move_lines}
use cloud_run_tcpdump.PcapFsn.Export.{
  Haxmap, Config, State, flush_file, export_match, export_pcap_file,
}
use cloud_run_tcpdump.PcapFsn.Export.Lines.{
  flushed_lines, flush_lines, match_lines, export_lines, run_lines,
}
use cloud_run_tcpdump.PcapFsn.Export.Run.{Event, run}
use cloud_run_tcpdump.PcapFsn.Export.Replay.{run_lines-replay}
use cloud_run_tcpdump.PcapFsn.Move.Replay.{
  Files, replay, replay_nil, replay-append, replay_other, replay_last, move_lines-replay,
}
use cloud_run_tcpdump.PcapFsn.FlushDir.{flush_all}

module _ (log : Source) (errors : Errors) (H : Haxmap) (T : Target) (cfg : Config)
    (faults : Text → Faults) where
  -- The entries of the flushing calls, one after the other.
  unfoldable pub flush_all_lines : List Text → State H → List Entry
  flush_all_lines [] s = []
  flush_all_lines (p ∷ ps) s =
      let s' = (export_pcap_file H T cfg (faults p) false false p true s).0 in
      export_lines log errors H T cfg (faults p) false false p true s ++ flush_all_lines ps s'

-- No copy breaks off, and every destination can be closed.
abbrev pub is_whole : Faults → Bool
is_whole f = is_none f.copy_breaks && is_none f.close_cuts

module _ (log : Source) (errors : Errors) (H : Haxmap) (T : Target) (cfg : Config)
    (faults : Faults) where
  module _ (whole : faults.copy_breaks ≡ none) (shut : faults.close_cuts ≡ none) where
    flushed_lines-replay :
        (m : Match) (src : Text) (moved : Moved) (o : Option Failure) (file : Files)
        → replay T false (flushed_lines log errors H T cfg faults false false m src moved o) file
          ≡ file
    unfolding flushed_lines strip_prefix
    flushed_lines-replay m src moved none file =
        replay_last T false log errors info _ PcapEvent.exported src moved.target moved.bytes none
          file refl refl
    flushed_lines-replay m src moved (some failure) file =
        replay_last T false log errors error _ failed src moved.target 0 _ file refl refl

    flush_lines-replay :
        (m : Match) (src : Text) (s : State H)
        → replay T false (flush_lines log errors H T cfg faults false false m src s) s.fs.file
          ≡ (flush_file H T cfg faults false false src s).0.fs.file
    unfolding flush_lines flush_file strip_prefix
    flush_lines-replay m src s =
        let (fs', moved) = move_pcap_to_gcs T faults src cfg.gcs_dir false false s.fs in
        let lines = move_lines log errors T faults src cfg.gcs_dir false false s.fs in
        let behind = flushed_lines log errors H T cfg faults false false m src moved moved.error in
        replay_other T false log errors info _ PcapEvent.exported src [] 0 none (lines ++ behind)
          s.fs.file refl refl
        ∙ replay-append T false lines behind s.fs.file
        ∙ ap (replay T false behind)
            (move_lines-replay T false log errors faults src cfg.gcs_dir false s.fs whole shut)
        ∙ flushed_lines-replay m src moved moved.error fs'.file

    match_lines-replay :
        (src : Text) (s : State H)
        → let o = find_submatch cfg.src_dir cfg.exts src in
          replay T false (match_lines log errors H T cfg faults false false o src true s) s.fs.file
          ≡ (export_match H T cfg faults false false o src true s).0.fs.file
    unfolding match_lines export_match replay
    match_lines-replay src s = elim (Option-cases (find_submatch cfg.src_dir cfg.exts src)) [
      | inl e ↦ rw (e, match_lines, export_match) refl
      | inr (m, e) ↦ rw (e, match_lines, export_match) (flush_lines-replay m src s)
    ]

    idle_lines-replay :
        (b : Bool) (lines : List Entry) (out : State H × Bool) (s : State H)
        → replay T false lines s.fs.file ≡ out.0.fs.file
        → replay T false (if b then [] else lines) s.fs.file
          ≡ (if b then (s, false) else out).0.fs.file
    idle_lines-replay true lines out s e = replay_nil T false s.fs.file
    idle_lines-replay false lines out s e = e

    flush_one_lines-replay :
        (src : Text) (s : State H)
        → replay T false (export_lines log errors H T cfg faults false false src true s) s.fs.file
          ≡ (export_pcap_file H T cfg faults false false src true s).0.fs.file
    unfolding export_lines export_pcap_file
    flush_one_lines-replay src s =
        let o = find_submatch cfg.src_dir cfg.exts src in
        idle_lines-replay s.is_active
          (match_lines log errors H T cfg faults false false o src true s)
          (export_match H T cfg faults false false o src true s) s (match_lines-replay src s)

module _ (log : Source) (errors : Errors) (H : Haxmap) (T : Target) (cfg : Config)
    (faults : Text → Faults) (whole : (r : Text) → is_whole (faults r) ≡ true) where
  flush_all_lines-replay :
      (ps : List Text) (s : State H)
      → replay T false (flush_all_lines log errors H T cfg faults ps s) s.fs.file
        ≡ (flush_all H T cfg faults ps s).0.fs.file
  unfolding flush_all_lines flush_all
  flush_all_lines-replay [] s = replay_nil T false s.fs.file
  flush_all_lines-replay (p ∷ ps) s =
      let lines = export_lines log errors H T cfg (faults p) false false p true s in
      let s' = (export_pcap_file H T cfg (faults p) false false p true s).0 in
      let rest = flush_all_lines log errors H T cfg faults ps s' in
      replay-append T false lines rest s.fs.file
      ∙ ap (replay T false rest) (
          flush_one_lines-replay log errors H T cfg (faults p) (ground (arith, whole p))
            (ground (arith, whole p)) p s)
      ∙ flush_all_lines-replay ps s'

module _ (log : Source) (errors : Errors) (H : Haxmap) (T : Target) (cfg : Config)
    (compress delete : Bool) where
  -- The log tells what happened to the files: the entries `COPIED` and `DELETED` that the calls of
  -- `exportPcapFile` write, those for a sequence of new files and then those of the last flush, taken in
  -- their order, turn the files that were there into those that are there behind the calls. Calls to the
  -- file system may fail, but no copy may break off, and no closing of a destination.
  pub run-flush_all_lines-replay :
      (es : List Event) (faults : Text → Faults) (ps : List Text) (s : State H)
      → all (λ (e : Event). is_whole e.faults) es ≡ true
      → ((r : Text) → is_whole (faults r) ≡ true)
      → let rotated = (run H T cfg compress delete es s).0 in
        let ended : State H = record rotated { is_active = false } in
        replay T false
          (flush_all_lines log errors H T cfg faults ps ended)
          (replay T compress (run_lines log errors H T cfg compress delete es s) s.fs.file)
        ≡ (flush_all H T cfg faults ps ended).0.fs.file
  run-flush_all_lines-replay es faults ps s whole sound =
      let rotated = (run H T cfg compress delete es s).0 in
      let ended : State H = record rotated { is_active = false } in
      ap (replay T false (flush_all_lines log errors H T cfg faults ps ended))
        (run_lines-replay T compress log errors H cfg delete es s whole)
      ∙ flush_all_lines-replay log errors H T cfg faults sound ps ended
