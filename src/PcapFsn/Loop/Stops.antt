-- ===== src/PcapFsn/Loop/Stops.antt =====
-- What a sequence of events does, and where the loop ends.
use cloud_run_tcpdump.Prelude.{
  if◌then◌else◌, ◌+◌, Bool-cases, ◌≡◌, refl, sym, ap, ◌∙◌, inl, inr, Bool, true, false, not, ◌&&◌,
  Option, none, some, List, [], ◌∷◌, map, arith,
}
use cloud_run_tcpdump.Text.{Text}
use cloud_run_tcpdump.PcapFsn.FileName.{Match, find_submatch}
use cloud_run_tcpdump.PcapFsn.Move.{Faults, Target, put}
use cloud_run_tcpdump.PcapFsn.Export.{
  Haxmap, Config, State, rotate, rotate_loaded, detect_file, export_match, export_pcap_file,
}
use cloud_run_tcpdump.PcapFsn.Export.Run.{Event, run}
use cloud_run_tcpdump.PcapFsn.Loop.{
  Received, event, events_closed, error, errors_closed, Turn, Loop, is_exit_signal, is_pcap,
  export_created, leave, remove, handle_created, handle, run_loop, interrupt,
}

-- A round without interruption.
abbrev pub calm : Received → Turn
calm r = record { received = r; is_interrupted = false }

-- What ends the loop.
pub data Stop : Type 0 where
  signaled : Text → Faults → Stop
  no_events no_errors : Stop

module _ (cfg : Config) where
  abbrev pub stops : Received → Option Stop
  stops (event created name faults) =
      if created && not (is_pcap cfg name) && is_exit_signal cfg name
      then some (signaled name faults)
      else none
  stops events_closed = some no_events
  stops error = none
  stops errors_closed = some no_errors

  -- The new PCAP files.
  abbrev pub exported : Received → List Event → List Event
  exported (event created name faults) rest =
      if created && is_pcap cfg name then record { name = name; faults = faults } ∷ rest else rest
  exported events_closed rest = rest
  exported error rest = rest
  exported errors_closed rest = rest

  abbrev pub first_of : Option Stop → Option Stop → Option Stop
  first_of none later = later
  first_of (some k) later = some k

  abbrev pub unless : Option Stop → List Event → List Event
  unless none es = es
  unless (some k) es = []

  -- The first value that ends the loop.
  abbrev pub first_stop : List Received → Option Stop
  first_stop [] = none
  first_stop (r ∷ rs) = first_of (stops r) (first_stop rs)

  -- The new PCAP files before that.
  abbrev pub exported_before : List Received → List Event
  exported_before [] = []
  exported_before (r ∷ rs) = exported r (unless (stops r) (exported_before rs))

module _ (H : Haxmap) (T : Target) (cfg : Config) where
  module _ (faults : Faults) (gzip delete : Bool) (name : Text) (s : State H) where
    exports-is_active :
        (o : Option Match)
        → (export_match H T cfg faults gzip delete o name false s).0.is_active ≡ s.is_active
    unfolding export_match detect_file rotate_loaded rotate
    exports-is_active none = refl
    exports-is_active (some m) = ground arith

    pub export_pcap_file-is_active :
        (export_pcap_file H T cfg faults gzip delete name false s).0.is_active ≡ s.is_active
    unfolding export_pcap_file
    export_pcap_file-is_active = exports-is_active (find_submatch cfg.src_dir cfg.exts name)

  module _ (gzip : Bool) where
    -- Behind an exit signal: the watcher is inactive, the context is cancelled once more, and the file of
    -- the signal is gone if it could be removed.
    abbrev pub left : Text → Faults → Loop H → Loop H
    left name faults s = record s {
      state = record s.state {
        is_active = false;
        fs = record s.state.fs {
          file = if faults.remove_fails then s.state.fs.file else put name none s.state.fs.file;
        };
      };
      cancels = s.cancels + 1;
      runs = false;
    }

    -- What the end of the loop does beside.
    abbrev pub finish : Option Stop → Loop H → Loop H
    finish none s = s
    finish (some (signaled name faults)) s = left name faults s
    finish (some no_events) s = record s { runs = false }
    finish (some no_errors) s = record s { runs = false; ticker_stopped = true }

    -- The calls of `exportPcapFile` for these files.
    abbrev pub exporting : List Event → Loop H → Loop H
    exporting es s = record s { state = (run H T cfg gzip true es s.state).0 }

    handle_lem :
        (r : Received) (s : Loop H)
        → s.state.is_active ≡ true
        → handle H T cfg gzip r s ≡ finish (stops cfg r) (exporting (exported cfg r []) s)
    unfolding handle handle_created export_created run leave remove
    handle_lem (event created name faults) s a = ground arith
    handle_lem events_closed s a = refl
    handle_lem error s a = refl
    handle_lem errors_closed s a = refl

    -- A loop that has ended does nothing more.
    pub run_loop_ended :
        (ts : List Turn) (s : Loop H) → s.runs ≡ false → run_loop H T cfg gzip ts s ≡ s
    unfolding run_loop
    run_loop_ended [] s e = refl
    run_loop_ended (t ∷ ts) s e = ground (arith, e)

    exporting-is_active :
        (es : List Event) (s : Loop H) → (exporting es s).state.is_active ≡ s.state.is_active
    unfolding run
    exporting-is_active [] s = refl
    exporting-is_active (e ∷ es) s =
        exporting-is_active es (exporting (e ∷ []) s)
        ∙ export_pcap_file-is_active e.faults gzip true e.name s.state

    exporting-exported :
        (r : Received) (es : List Event) (s : Loop H)
        → exporting (exported cfg r es) s ≡ exporting es (exporting (exported cfg r []) s)
    unfolding run
    exporting-exported (event created name faults) es s =
        elim (Bool-cases (created && is_pcap cfg name)) [ inl e ↦ rw e refl | inr e ↦ rw e refl ]
    exporting-exported events_closed es s = refl
    exporting-exported error es s = refl
    exporting-exported errors_closed es s = refl

    finish_ended : (k : Stop) (s : Loop H) → (finish (some k) s).runs ≡ false
    finish_ended (signaled name faults) s = refl
    finish_ended no_events s = refl
    finish_ended no_errors s = refl

    pub turn_lem :
        (t : Turn) (ts : List Turn) (s : Loop H)
        → s.runs ≡ true
        → s.state.is_active ≡ true
        → run_loop H T cfg gzip (t ∷ ts) s
          ≡ run_loop H T cfg gzip ts
              (handle H T cfg gzip t.received (interrupt H T cfg gzip t.is_interrupted s))
    unfolding run_loop
    turn_lem t ts s h a =
        let both : (s.runs && s.state.is_active) ≡ true = ground (arith, h, a) in
        let rest =
          run_loop H T cfg gzip ts
            (handle H T cfg gzip t.received (interrupt H T cfg gzip t.is_interrupted s)) in
        ap (λ b. if b then rest else record s { runs = false }) both

    goes_on :
        (o : Option Stop) (r : Received) (rs : List Received) (s : Loop H)
        → let s' = exporting (exported cfg r []) s in
          run_loop H T cfg gzip (map calm rs) s'
            ≡ finish (first_stop cfg rs) (exporting (exported_before cfg rs) s')
          → run_loop H T cfg gzip (map calm rs) (finish o s')
            ≡ finish
                (first_of cfg o (first_stop cfg rs))
                (exporting (exported cfg r (unless cfg o (exported_before cfg rs))) s)
    goes_on none r rs s ih =
        ih ∙ ap (finish (first_stop cfg rs)) (sym (exporting-exported r (exported_before cfg rs) s))
    goes_on (some k) r rs s ih =
        let s' = exporting (exported cfg r []) s in
        run_loop_ended (map calm rs) (finish (some k) s') (finish_ended k s')

    -- What the loop does with a sequence of values, in the absence of other threads, from a state in
    -- which it runs and the watcher is active: it makes the calls of `exportPcapFile` for the new PCAP
    -- files before the first value that ends it, and nothing for those behind. An exit signal makes the
    -- watcher inactive and cancels the context once, and its file is gone unless it cannot be removed; a
    -- closed channel only ends the loop.
    pub run_loop-first_stop :
        (rs : List Received) (s : Loop H)
        → s.runs ≡ true
        → s.state.is_active ≡ true
        → run_loop H T cfg gzip (map calm rs) s
          ≡ finish (first_stop cfg rs) (exporting (exported_before cfg rs) s)
    unfolding run_loop run
    run_loop-first_stop [] s h a = refl
    run_loop-first_stop (r ∷ rs) s h a =
        let s' = exporting (exported cfg r []) s in
        let a' : s'.state.is_active ≡ true = exporting-is_active (exported cfg r []) s ∙ a in
        turn_lem (calm r) (map calm rs) s h a
        ∙ ap (run_loop H T cfg gzip (map calm rs)) (handle_lem r s a)
        ∙ goes_on (stops cfg r) r rs s (run_loop-first_stop rs s' h a')
