-- ===== src/PcapFsn/Main/Outcomes.antt =====
-- How the watcher ends, in the absence of other threads.
use cloud_run_tcpdump.Prelude.{
  ◌==◌, if◌then◌else◌, Bool-cases, all, length, ◌%◌, ◌^◌, ◌≡◌, refl, sym, ap, ◌∙◌, inl, inr, true,
  false, not, Option, none, some, List, [], ◌∷◌, map, arith,
}
use cloud_run_tcpdump.PcapFsn.Move.{Fs, Target}
use cloud_run_tcpdump.PcapFsn.Export.{Haxmap, Config, State}
use cloud_run_tcpdump.PcapFsn.Loop.{Received, Turn, Loop, run_loop}
use cloud_run_tcpdump.PcapFsn.Loop.Stops.{
  calm, Stop, signaled, no_events, no_errors, first_stop, exported_before, exporting, left, finish,
  run_loop-first_stop,
}
use cloud_run_tcpdump.PcapFsn.FlushDir.{Entry, flush_src_dir, flush_all}
use cloud_run_tcpdump.PcapFsn.FlushDir.Walk.{has_info, paths, flush_src_dir-flushes}
use cloud_run_tcpdump.Tcpdumpw.Main.{is_positive}
use cloud_run_tcpdump.PcapFsn.Main.{
  Flags, config_of, interval_bits, Env, Outcome, exits, waits, panics, ended, flushed, watch, begin,
  main,
}

module _ (H : Haxmap) (T : Target) (flags : Flags) (env : Env) where
  abbrev pub cfg : Config
  cfg = config_of flags

  -- The last flush of all files that the walk finds.
  abbrev pub flush_found : List Entry → State H → Outcome H
  flush_found entries s =
      let ps = paths (λ e. true) entries in
      let (s', results) = flush_all H T cfg env.flush_faults ps s in
      if all has_info entries then ended (length ps % 2 ^ 32) s' results else panics

  -- Behind the loop over events.
  abbrev pub stopped_by : Option Stop → List Entry → Loop H → Outcome H
  stopped_by none entries l = waits
  stopped_by (some (signaled name faults)) entries l =
      flush_found entries (left H T cfg flags.gzip name faults l).state
  stopped_by (some no_events) entries l = waits
  stopped_by (some no_errors) entries l = waits

  flushed_lem :
      (entries : List Entry) (s : State H)
      → flushed H T flags env (flush_src_dir H T cfg env.flush_faults (λ e. true) entries s)
        ≡ flush_found entries s
  flushed_lem entries s =
      let ps = paths (λ e. true) entries in
      elim (Bool-cases (all has_info entries)) [
        | inl e ↦ rw (flush_src_dir-flushes H T cfg env.flush_faults (λ e. true) entries s, e) refl
        | inr e ↦ rw (flush_src_dir-flushes H T cfg env.flush_faults (λ e. true) entries s, e) refl
      ]

  finished :
      (o : Option Stop) (entries : List Entry) (l : Loop H)
      → l.cancels ≡ 0
      → (let behind = finish H T cfg flags.gzip o l in
          if behind.cancels == 0
          then waits
          else flushed H T flags env
              (flush_src_dir H T cfg env.flush_faults (λ e. true) entries behind.state))
        ≡ stopped_by o entries l
  finished none entries l h = rw h refl
  finished (some (signaled name faults)) entries l h =
      rw h (flushed_lem entries (left H T cfg flags.gzip name faults l).state)
  finished (some no_events) entries l h = rw h refl
  finished (some no_errors) entries l h = rw h refl

  pub watch_lem :
      (rs : List Received) (entries : List Entry) (l : Loop H)
      → l.runs ≡ true
      → l.state.is_active ≡ true
      → l.cancels ≡ 0
      → watch H T flags env (map calm rs) entries l
        ≡ stopped_by
            (first_stop cfg rs)
            entries
            (exporting H T cfg flags.gzip (exported_before cfg rs) l)
  unfolding watch
  watch_lem rs entries l runs active none_yet =
      rw (run_loop-first_stop H T cfg flags.gzip rs l runs active) (
        finished (first_stop cfg rs) entries
          (exporting H T cfg flags.gzip (exported_before cfg rs) l) none_yet)

  -- A loop that begins inactive ends at once.
  unwatched :
      (ts : List Turn) (entries : List Entry) (l : Loop H)
      → l.state.is_active ≡ false
      → l.cancels ≡ 0
      → watch H T flags env ts entries l ≡ waits
  unfolding watch run_loop
  unwatched [] entries l inactive none_yet = rw none_yet refl
  unwatched (t ∷ ts) entries l inactive none_yet = ground (arith, inactive, none_yet)

  module _ (counters : H.Counters) (last_pcap : H.Files) where
    -- How `main` ends, in the absence of other threads. It exits with 1 exactly if the watcher cannot be
    -- made. It panics if the interval of the ticker, in 64 bits, is not positive. It waits for ever if the directory cannot be watched, or if no exit signal comes before a
    -- channel is closed. Else it flushes all files that the walk finds, behind the exports of the files
    -- that came before the signal, and panics if the walk has no file information for a path.
    pub main-stopped_by :
        (rs : List Received) (entries : List Entry) (fs : Fs)
        → main H T flags env counters last_pcap (map calm rs) entries fs ≡ (
            if env.watcher_fails
            then exits 1
            else if not (is_positive (interval_bits flags))
            then panics
            else if env.add_fails
            then waits
            else stopped_by (first_stop cfg rs) entries (
                exporting H T cfg flags.gzip
                  (exported_before cfg rs)
                  (begin H T flags env counters last_pcap fs)))
    unfolding main begin
    main-stopped_by rs entries fs =
        let begun = begin H T flags env counters last_pcap fs in
        let looped =
          stopped_by (first_stop cfg rs) entries
            (exporting H T cfg flags.gzip (exported_before cfg rs) begun) in
        let from = λ (o : Outcome H).
          if env.watcher_fails
          then exits 1
          else if not (is_positive (interval_bits flags))
          then panics
          else o in
        elim (Bool-cases env.add_fails) [
          | inl e ↦
              let idle = unwatched (map calm rs) entries begun (ap not e) refl in
              ap from (idle ∙ sym (ap (λ b. if b then waits else looped) e))
          | inr e ↦
              let watched = watch_lem rs entries begun refl (ap not e) refl in
              ap from (watched ∙ sym (ap (λ b. if b then waits else looped) e))
        ]
