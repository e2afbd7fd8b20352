-- ===== src/PcapFsn/Export/Replay.antt =====
-- The log of the calls of `exportPcapFile` in pcap-fsnotify/main.go tells what happened to the files.
use cloud_run_tcpdump.Prelude.{
  ◌&&◌, ◌==◌, Bool-cases, Option-cases, ◌≡◌, refl, ap, ◌∙◌, inl, inr, Bool, true, false, all, ℕ,
  Option, none, some, List, [], ◌∷◌, ◌++◌, arith,
}
use cloud_run_tcpdump.Text.{Text, text_eq}
use cloud_run_tcpdump.PcapFsn.Log.{Source, info, error, PcapEvent, created, failed, queued, Entry}
use cloud_run_tcpdump.PcapFsn.FileName.{Match, find_submatch, strip_prefix, key_of}
use cloud_run_tcpdump.PcapFsn.Move.{Faults, Target, move_pcap_to_gcs, is_none, Moved, Failure}
use cloud_run_tcpdump.PcapFsn.Move.Lines.{Errors, move_lines}
use cloud_run_tcpdump.PcapFsn.Export.{
  Haxmap, Config, State, rotate, rotate_loaded, detect_file, export_match, export_pcap_file,
}
use cloud_run_tcpdump.PcapFsn.Export.Lines.{
  queue_lines, exported_line, rotate_lines, unavailable_lines, loaded_lines, detect_lines,
  match_lines, export_lines, run_lines,
}
use cloud_run_tcpdump.PcapFsn.Export.Run.{Event, run}
use cloud_run_tcpdump.PcapFsn.Move.Replay.{
  Files, replay, replay_nil, replay-append, replay_other, replay_last, move_lines-replay,
}

module _ (T : Target) (compress : Bool) (log : Source) (errors : Errors) where
  module _ (H : Haxmap) (cfg : Config) (delete : Bool) (faults : Faults)
      (whole : faults.copy_breaks ≡ none) (shut : faults.close_cuts ≡ none) where
    queue_lines-replay :
        (m : Match) (iteration : ℕ) (src : Text) (swapped : Bool) (file : Files)
        → replay T compress
            (queue_lines log errors H T cfg faults compress delete m iteration src swapped)
            file
          ≡ file
    unfolding queue_lines strip_prefix
    queue_lines-replay m iteration src true file =
        replay_last T compress log errors info _ queued src [] 0 none file refl refl
    queue_lines-replay m iteration src false file =
        replay_other T compress log errors error _ failed src [] 0 none _ file refl refl
        ∙ replay_last T compress log errors info _ queued src [] 0 none file refl refl

    exported_line-replay :
        (m : Match) (iteration : ℕ) (last : Text) (moved : Moved) (o : Option Failure)
        (rest : List Entry) (file : Files)
        → replay T compress
            (exported_line log errors H T cfg faults compress delete m iteration last moved o
              ∷ rest)
            file
          ≡ replay T compress rest file
    unfolding exported_line strip_prefix
    exported_line-replay m iteration last moved none rest file =
        replay_other T compress log errors info _ PcapEvent.exported last moved.target moved.bytes
          none rest file refl refl
    exported_line-replay m iteration last moved (some failure) rest file =
        replay_other T compress log errors error _ PcapEvent.exported last moved.target 0 _ rest
          file refl refl

    rotate_lines-replay :
        (m : Match) (iteration : ℕ) (src last : Text) (s : State H)
        → replay T compress
            (rotate_lines log errors H T cfg faults compress delete m iteration src last s)
            s.fs.file
          ≡ (rotate H T cfg faults compress delete (key_of m) src last s).0.fs.file
    unfolding rotate_lines rotate strip_prefix
    rotate_lines-replay m iteration src last s =
        let (fs', moved) = move_pcap_to_gcs T faults last cfg.gcs_dir compress delete s.fs in
        let lines = move_lines log errors T faults last cfg.gcs_dir compress delete s.fs in
        let swapped = (H.compare_and_swap (key_of m) last src s.last_pcap).1 in
        let ending =
          queue_lines log errors H T cfg faults compress delete m iteration src swapped in
        let behind =
          exported_line log errors H T cfg faults compress delete m iteration last moved moved.error
          ∷ ending in
        replay_other T compress log errors info _ PcapEvent.exported last [] 0 none
          (lines ++ behind) s.fs.file refl refl
        ∙ replay-append T compress lines behind s.fs.file
        ∙ ap (replay T compress behind)
            (move_lines-replay T compress log errors faults last cfg.gcs_dir delete s.fs whole shut)
        ∙ exported_line-replay m iteration last moved moved.error ending fs'.file
        ∙ queue_lines-replay m iteration src swapped fs'.file

    loaded_lines-replay :
        (m : Match) (iteration : ℕ) (src : Text) (o : Option Text) (s : State H)
        → replay T compress
            (loaded_lines log errors H T cfg faults compress delete m iteration src o s)
            s.fs.file
          ≡ (rotate_loaded H T cfg faults compress delete (key_of m) src o s).0.fs.file
    unfolding loaded_lines rotate_loaded unavailable_lines strip_prefix
    loaded_lines-replay m iteration src none s =
        replay_last T compress log errors error _ PcapEvent.exported [] src 0 none s.fs.file refl
          refl
    loaded_lines-replay m iteration src (some last) s = elim (Bool-cases (text_eq last [])) [
      | inl e ↦ rw e (
          replay_last T compress log errors error _ PcapEvent.exported [] src 0 none s.fs.file refl
            refl)
      | inr e ↦ rw e (rotate_lines-replay m iteration src last s)
    ]

    detect_lines-replay :
        (m : Match) (src : Text) (s : State H)
        → replay T compress
            (detect_lines log errors H T cfg faults compress delete m src s)
            s.fs.file
          ≡ (detect_file H T cfg faults compress delete (key_of m) src s).0.fs.file
    unfolding detect_lines detect_file strip_prefix
    detect_lines-replay m src s =
        let (counters, iteration) = H.increment (key_of m) s.counters in
        let counted : State H = record s { counters = counters } in
        let waits = H.get (key_of m) s.last_pcap in
        replay_other T compress log errors info _ created src [] 0 none _ s.fs.file refl refl
        ∙ elim (Bool-cases (iteration == 1)) [
          | inl e ↦ rw e (replay_nil T compress s.fs.file)
          | inr e ↦ rw e (loaded_lines-replay m iteration src waits counted)
        ]

    export_lines-replay :
        (src : Text) (s : State H)
        → replay T compress
            (export_lines log errors H T cfg faults compress delete src false s)
            s.fs.file
          ≡ (export_pcap_file H T cfg faults compress delete src false s).0.fs.file
    unfolding export_lines export_pcap_file match_lines export_match replay
    export_lines-replay src s = elim (Option-cases (find_submatch cfg.src_dir cfg.exts src)) [
      | inl e ↦ rw (e, match_lines, export_match) refl
      | inr (m, e) ↦ rw (e, match_lines, export_match) (detect_lines-replay m src s)
    ]

  module _ (H : Haxmap) (cfg : Config) (delete : Bool) where
    -- The log tells what happened to the files: the entries `COPIED` and `DELETED` that the calls of
    -- `exportPcapFile` for a sequence of new files write, taken in their order, turn the files that
    -- were there into those that are there behind the calls. Calls to the file system may fail, but
    -- no copy may break off, and no closing of a destination.
    pub run_lines-replay :
        (es : List Event) (s : State H)
        → all (λ (e : Event). is_none e.faults.copy_breaks && is_none e.faults.close_cuts) es ≡ true
        → replay T compress (run_lines log errors H T cfg compress delete es s) s.fs.file
          ≡ (run H T cfg compress delete es s).0.fs.file
    unfolding run_lines run
    run_lines-replay [] s whole = replay_nil T compress s.fs.file
    run_lines-replay (e ∷ es) s whole =
        let lines = export_lines log errors H T cfg e.faults compress delete e.name false s in
        let s' = (export_pcap_file H T cfg e.faults compress delete e.name false s).0 in
        let rest = run_lines log errors H T cfg compress delete es s' in
        let intact : e.faults.copy_breaks ≡ none = ground arith in
        let shut : e.faults.close_cuts ≡ none = ground arith in
        replay-append T compress lines rest s.fs.file
        ∙ ap (replay T compress rest)
            (export_lines-replay H cfg delete e.faults intact shut e.name s)
        ∙ run_lines-replay es s' (ground arith)
