-- ===== src/PcapFsn/Main/Arrives.antt =====
-- Every capture arrives in the bucket.
use cloud_run_tcpdump.Prelude.{
  if◌then◌else◌, ◌%◌, all, length, ℕ, ◌^◌, ◌<◌, ◌≡◌, refl, ap, ◌∙◌, inl, Bool, true, false, not,
  none, some, List, [], ◌∷◌, map, arith,
}
use cloud_run_tcpdump.Text.{Text, text_eq, contains}
use cloud_run_tcpdump.Text.Laws.{text_eq_iff}
use cloud_run_tcpdump.PcapFsn.Move.{Bytes, Fs, Faults, Target, is_none}
use cloud_run_tcpdump.PcapFsn.Export.{Haxmap, IsHaxmap, Config, State}
use cloud_run_tcpdump.PcapFsn.Export.History.{Tracks}
use cloud_run_tcpdump.PcapFsn.Export.Run.{run-rotation}
use cloud_run_tcpdump.PcapFsn.Loop.{
  Received, event, events_closed, error, errors_closed, Loop, is_pcap, remove,
}
use cloud_run_tcpdump.PcapFsn.Loop.Stops.{
  calm, signaled, stops, first_stop, exported_before, exporting, left,
}
use cloud_run_tcpdump.PcapFsn.FlushDir.{Entry}
use cloud_run_tcpdump.PcapFsn.FlushDir.Walk.{has_info, paths}
use cloud_run_tcpdump.PcapFsn.FlushDir.Complete.{is_sound}
use cloud_run_tcpdump.PcapFsn.FlushDir.Arrives.{
  place, plain, Ready, Arrived, clears, calm_event, rotation-Ready, flush_all-Arrived,
}
use cloud_run_tcpdump.PcapFsn.FlushDir.{flush_all}
use cloud_run_tcpdump.Tcpdumpw.Main.{is_positive}
use cloud_run_tcpdump.PcapFsn.Main.{
  Flags, interval_bits, Env, exits, waits, panics, ended, begin, main,
}
use cloud_run_tcpdump.PcapFsn.Main.Outcomes.{cfg, stopped_by, main-stopped_by}

-- The file that ends the loop is no PCAP file.
stops-is_pcap :
    (cfg : Config) (r : Received) (name : Text) (faults : Faults)
    → stops cfg r ≡ some (signaled name faults)
    → is_pcap cfg name ≡ false
stops-is_pcap cfg (event created n f) name faults e = ground (arith, e)
stops-is_pcap cfg events_closed name faults e = ground (arith, e)
stops-is_pcap cfg error name faults e = ground (arith, e)
stops-is_pcap cfg errors_closed name faults e = ground (arith, e)

first_stop-is_pcap :
    (cfg : Config) (rs : List Received) (name : Text) (faults : Faults)
    → first_stop cfg rs ≡ some (signaled name faults)
    → is_pcap cfg name ≡ false
first_stop-is_pcap cfg [] name faults e = ground (arith, e)
first_stop-is_pcap cfg (r ∷ rs) name faults e =
    ground (arith, e, stops-is_pcap cfg r name faults, first_stop-is_pcap cfg rs name faults)

module _ (T : Target) (cfg : Config) (gzip : Bool) (p : Text) (content : Bytes) where
  remove-Ready :
      (faults : Faults) (name : Text) (fs : Fs)
      → text_eq name p ≡ false
      → text_eq name (place T cfg gzip p content) ≡ false
      → Ready T cfg gzip p content fs
      → Ready T cfg gzip p content (remove faults name fs)
  unfolding remove
  remove-Ready faults name fs other apart ready = ground arith

  module _ (H : Haxmap) (L : IsHaxmap H) where
    exporting-Ready :
        (rs : List Received) (s : Loop H)
        → Tracks H [] s.state
        → length (exported_before cfg rs) < 2 ^ 64
        → all (calm_event T cfg gzip p content) (exported_before cfg rs) ≡ true
        → Ready T cfg gzip p content s.state.fs
        → Ready T cfg gzip p content (exporting H T cfg gzip (exported_before cfg rs) s).state.fs
    exporting-Ready rs s tracks fits calm_events ready =
        let es = exported_before cfg rs in
        let (same, results) = run-rotation H L T cfg gzip true es s.state [] tracks (omega arith) in
        rw same (rotation-Ready T cfg gzip p content true es [] s.state.fs refl calm_events ready)

module _ (H : Haxmap) (L : IsHaxmap H) (T : Target) (flags : Flags) (env : Env)
    (counters : H.Counters) (last_pcap : H.Files) where
  abbrev pub exported_all : List Received → Fs → Loop H
  exported_all rs fs =
      exporting H T (cfg H T flags env) flags.gzip (exported_before (cfg H T flags env) rs)
        (begin H T flags env counters last_pcap fs)

  -- Every capture arrives: in the absence of other threads, where the interval of the ticker is
  -- positive, the watcher begins to watch the directory and the exit signal of tcpdumpw ends its
  -- loop over events, it comes to its end, and a PCAP file that was there is then whole in the
  -- bucket: compressed as asked for, or as it was, by the last flush. Calls to the file system may
  -- fail for the exports, but no copy may break off, and no closing of a destination; only removals
  -- may fail in the last flush; the place for the flush is free, no other file goes there, and no
  -- name in use is the place in the bucket; the walk of the last flush finds the file if it is still
  -- there behind the exports, and gets file information for all that it finds; the two maps are
  -- empty at the start, and the new files are fewer than a counter can hold.
  pub main-Arrived :
      (rs : List Received) (fs : Fs) (entries : List Entry) (name : Text) (signal : Faults)
      (p : Text) (content : Bytes)
      → env.watcher_fails ≡ false
      → is_positive (interval_bits flags) ≡ true
      → env.add_fails ≡ false
      → ((k : Text) → H.count k counters ≡ 0)
      → ((k : Text) → H.get k last_pcap ≡ none)
      → length (exported_before (cfg H T flags env) rs) < 2 ^ 64
      → first_stop (cfg H T flags env) rs ≡ some (signaled name signal)
      → text_eq name (place T (cfg H T flags env) flags.gzip p content) ≡ false
      → is_pcap (cfg H T flags env) p ≡ true
      → fs.file p ≡ some content
      → fs.file (plain T (cfg H T flags env) flags.gzip p content) ≡ none
      → all
          (calm_event T (cfg H T flags env) flags.gzip p content)
          (exported_before (cfg H T flags env) rs)
        ≡ true
      → ((r : Text) → is_sound (env.flush_faults r) ≡ true)
      → all has_info entries ≡ true
      → all (clears T (cfg H T flags env) flags.gzip p content) (paths (λ e. true) entries) ≡ true
      → (is_none ((exported_all rs fs).state.fs.file p) ≡ false
          → contains (paths (λ e. true) entries) p ≡ true)
      → (count : ℕ) × (behind : State H) × (results : List Bool) × (main H T flags env counters
            last_pcap
            (map calm rs)
            entries
            fs
          ≡ ended count behind results)
        × Arrived T (cfg H T flags env) flags.gzip p content behind.fs
  unfolding is_pcap begin remove
  main-Arrived rs fs entries name signal p content made ticks added none_counted none_waiting fits
        stop apart pcap held free calm_events ok known clear found =
      let c = cfg H T flags env in
      let ps = paths (λ e. true) entries in
      let begun = begin H T flags env counters last_pcap fs in
      let before = exported_all rs fs in
      let after = left H T c flags.gzip name signal before in
      let (end, results) = flush_all H T c env.flush_faults ps after.state in
      let other : text_eq name p ≡ false =
        ground (arith, first_stop-is_pcap c rs name signal stop, pcap, text_eq_iff name p) in
      let tracks : Tracks H [] begun.state = record {
        counted = none_counted;
        waiting = none_waiting;
        named = refl;
      } in
      let ready = remove-Ready T c flags.gzip p content signal name before.state.fs other apart (
        exporting-Ready T c flags.gzip p content H L rs begun tracks fits calm_events
          (inl (held, free))) in
      let outcome : main H T flags env counters last_pcap (map calm rs) entries fs
          ≡ ended (length ps % 2 ^ 32) end results =
        main-stopped_by H T flags env counters last_pcap rs entries fs
        ∙ ap
            (λ b.
              if b
              then exits 1
              else if not (is_positive (interval_bits flags))
              then panics
              else if env.add_fails
              then waits
              else stopped_by H T flags env (first_stop c rs) entries before)
            made
        ∙ ap
            (λ b.
              if not b
              then panics
              else if env.add_fails
              then waits
              else stopped_by H T flags env (first_stop c rs) entries before)
            ticks
        ∙ ap (λ b. if b then waits else stopped_by H T flags env (first_stop c rs) entries before)
            added
        ∙ ap (λ o. stopped_by H T flags env o entries before) stop
        ∙ ap (λ b. if b then ended (length ps % 2 ^ 32) end results else panics) known in
      (
        length ps % 2 ^ 32,
        end,
        results,
        outcome,
        flush_all-Arrived T c flags.gzip p content H env.flush_faults ok ps after.state refl
            (ground (arith, pcap)) clear ready (λ h. found (ground (arith, h, other))),
      )
