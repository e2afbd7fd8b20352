-- ===== src/PcapFsn/Export/Flush.antt =====
-- The flushing calls of `exportPcapFile`, as `flushSrcDir` in pcap-fsnotify/main.go makes them at
-- the end: without compression and without removal.
use cloud_run_tcpdump.Prelude.{
  if◌then◌else◌, ◌≡◌, refl, ◌≢◌, Bool, true, false, Option, none, some, arith,
}
use cloud_run_tcpdump.Text.{Text}
use cloud_run_tcpdump.Text.Laws.{text_eq_iff}
use cloud_run_tcpdump.PcapFsn.FileName.{Match, find_submatch}
use cloud_run_tcpdump.PcapFsn.Move.{
  Fs, Faults, Target, target_of, move_pcap_to_gcs, open_file, create_file, copy_file,
}
use cloud_run_tcpdump.PcapFsn.Export.{
  Haxmap, Config, State, flush_file, export_match, export_pcap_file,
}

-- A move without removal changes no file that is there.
move_pcap_to_gcs-present :
    (T : Target) (faults : Faults) (src dst_dir : Text) (compress : Bool) (fs : Fs) (p : Text)
    → fs.file p ≢ none
    → (move_pcap_to_gcs T faults src dst_dir compress false fs).0.file p ≡ fs.file p
unfolding move_pcap_to_gcs open_file create_file copy_file
move_pcap_to_gcs-present T faults src dst_dir compress fs p h =
    ground (arith, text_eq_iff (target_of T src dst_dir compress) p)

module _ (H : Haxmap) (T : Target) (cfg : Config) (faults : Faults) (src : Text) (s : State H) where
  -- What a flushing call leaves as it was.
  record IsKept (after : State H) : Type 0 where
    files : (p : Text) → s.fs.file p ≢ none → after.fs.file p ≡ s.fs.file p
    counters : after.counters ≡ s.counters
    last_pcap : after.last_pcap ≡ s.last_pcap

  abbrev pub flushed : State H × Bool
  flushed = export_pcap_file H T cfg faults false false src true s

  export_match-IsKept :
      (o : Option Match) → IsKept (export_match H T cfg faults false false o src true s).0
  unfolding export_match flush_file
  export_match-IsKept none = record { files = λ p h. refl; counters = refl; last_pcap = refl }
  export_match-IsKept (some m) = record {
    files = λ p h. move_pcap_to_gcs-present T faults src cfg.gcs_dir false s.fs p h;
    counters = refl;
    last_pcap = refl;
  }

  choice-IsKept :
      (b : Bool) (x : State H × Bool) → IsKept x.0 → IsKept (if b then (s, false) else x).0
  choice-IsKept true x kept = record { files = λ p h. refl; counters = refl; last_pcap = refl }
  choice-IsKept false x kept = kept

  choice_true :
      (b : Bool) (x : State H × Bool) → b ≡ true → (if b then (s, false) else x) ≡ (s, false)
  choice_true b x e = rw e refl

  -- A flushing call changes no file that is there, none of the two maps, and nothing at all while
  -- the watcher is active.
  pub export_pcap_file-flush :
      ((p : Text) → s.fs.file p ≢ none → flushed.0.fs.file p ≡ s.fs.file p)
      × (flushed.0.counters ≡ s.counters)
      × (flushed.0.last_pcap ≡ s.last_pcap)
      × (s.is_active ≡ true → flushed ≡ (s, false))
  unfolding export_pcap_file
  export_pcap_file-flush =
      let o = find_submatch cfg.src_dir cfg.exts src in
      let exported = export_match H T cfg faults false false o src true s in
      let kept = choice-IsKept s.is_active exported (export_match-IsKept o) in
      (kept.files, kept.counters, kept.last_pcap, λ e. choice_true s.is_active exported e)
