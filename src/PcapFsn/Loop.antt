-- ===== src/PcapFsn/Loop.antt =====
-- The loop over events of the file system in `main` of pcap-fsnotify/main.go: what it makes of each
-- value that it receives, until it ends. `PcapFsn.Shutdown` has the same loop as one of the threads.
pub mod Stops
pub mod Signal
use cloud_run_tcpdump.Prelude.{
  if◌then◌else◌, ℕ, ◌+◌, Bool, true, false, not, ◌&&◌, none, List, [], ◌∷◌, ◌++◌,
}
use cloud_run_tcpdump.Text.{Text, codes, text_eq}
use cloud_run_tcpdump.PcapFsn.FileName.{find_submatch}
use cloud_run_tcpdump.PcapFsn.Move.{Fs, Faults, Target, put, is_none}
use cloud_run_tcpdump.PcapFsn.Export.{Haxmap, Config, State, export_pcap_file}

-- A value from one of the channels of the watcher, or its closing. An event says whether a file was
-- created, and its name; the faults are those of the file system while it is handled.
pub data Received : Type 0 where
  event : Bool → Text → Faults → Received
  events_closed error errors_closed : Received

-- A round of the loop: whether another thread makes the watcher inactive between the test of
-- `isActive` and the event.
pub record Turn : Type 0 where
  pub received : Received
  pub is_interrupted : Bool

-- What the loop changes: the maps and files, how often `cancel()` was called, whether the loop runs,
-- and whether it has stopped the ticker.
pub record Loop (H : Haxmap) : Type 0 where
  pub state : State H
  pub cancels : ℕ
  pub runs : Bool
  pub ticker_stopped : Bool

-- `^DIR/TCPDUMPW_EXITED$`, with DIR read as plain text.
unfoldable pub is_exit_signal : Config → Text → Bool
is_exit_signal cfg name = text_eq name (cfg.src_dir ++ codes "/TCPDUMPW_EXITED")

-- `pcapDotExt.MatchString`
unfoldable pub is_pcap : Config → Text → Bool
is_pcap cfg name = not (is_none (find_submatch cfg.src_dir cfg.exts name))

-- `os.Remove`
unfoldable pub remove : Faults → Text → Fs → Fs
remove faults name fs = record fs {
  file = if faults.remove_fails then fs.file else put name none fs.file;
}

module _ (H : Haxmap) (T : Target) (cfg : Config) (gzip : Bool) where
  -- Another thread swaps `isActive` and calls `cancel()`, both before the loop goes on; PcapFsn.Shutdown
  -- has these apart.
  abbrev pub interrupt : Bool → Loop H → Loop H
  interrupt interrupted s =
      if interrupted && s.state.is_active
      then record s { state = record s.state { is_active = false }; cancels = s.cancels + 1 }
      else s

  -- The new file is exported, compressed as asked for, and its source is removed.
  unfoldable pub export_created : Text → Faults → Loop H → Loop H
  export_created name faults s = record s {
    state = (export_pcap_file H T cfg faults gzip true name false s.state).0;
  }

  -- Behind the successful swap: the exit signal is removed, and the context is cancelled.
  unfoldable pub leave : Text → Faults → Loop H → Loop H
  leave name faults s = record s {
    state = record s.state { is_active = false; fs = remove faults name s.state.fs };
    cancels = s.cancels + 1;
    runs = false;
  }

  unfoldable pub handle_created : Text → Faults → Loop H → Loop H
  handle_created name faults s =
      if is_pcap cfg name
      then export_created name faults s
      else if is_exit_signal cfg name && s.state.is_active
      then leave name faults s
      else s

  unfoldable pub handle : Received → Loop H → Loop H
  handle (event created name faults) s = if created then handle_created name faults s else s
  handle events_closed s = record s { runs = false }
  handle error s = s
  handle errors_closed s = record s { runs = false; ticker_stopped = true }

  -- The loop over the rounds; it ends where `isActive` is reset. At the end of the list it waits.
  unfoldable pub run_loop : List Turn → Loop H → Loop H
  run_loop [] s = s
  run_loop (t ∷ ts) s =
      let rest = run_loop ts (handle t.received (interrupt t.is_interrupted s)) in
      if s.runs && s.state.is_active then rest else record s { runs = false }
