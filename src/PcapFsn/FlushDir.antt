-- ===== src/PcapFsn/FlushDir.antt =====
-- `flushSrcDir` in pcap-fsnotify/main.go: the walk over the directory, and the flushing calls that it
-- starts. The calls run at once in the source; here one comes behind the other, each as a whole, and in
-- AtOnce they run at once. The calls to the file system fail for each of them on their own: the faults are
-- given by its file, which the walk meets once. The call of `flushBuffers` before the walk, whose result is dropped, is left
-- out.
pub mod Walk
pub mod Complete
pub mod Kept
pub mod Lines
pub mod Arrives
pub mod AtOnce
use cloud_run_tcpdump.Prelude.{
  if◌then◌else◌, ℕ, ◌+◌, ◌%◌, ◌^◌, Bool, true, false, Option, none, some, List, [], ◌∷◌, ◌++◌,
}
use cloud_run_tcpdump.Text.{Text, failed}
use cloud_run_tcpdump.PcapFsn.Move.{Faults, Target}
use cloud_run_tcpdump.PcapFsn.Export.{Haxmap, Config, State, export_pcap_file}

-- One call of the function that is handed to `filepath.Walk`: the path, whether the file information
-- names a directory (`none`: there is no information), and whether there is an error.
pub record Entry : Type 0 where
  pub path : Text
  pub is_dir : Option Bool
  pub failed : Bool

pub data Visit : Type 0 where
  crash skip export : Visit

-- `info.IsDir()` comes before the test of the error, so it panics without information.
unfoldable pub visit_info : (Entry → Bool) → Entry → Option Bool → Visit
visit_info validator e none = crash
visit_info validator e (some true) = skip
visit_info validator e (some false) =
    if e.failed then skip else if validator e then export else skip

unfoldable pub visit : (Entry → Bool) → Entry → Visit
visit validator e = visit_info validator e e.is_dir

-- `pendingPcapFiles` and the files for which a call is started; `none` is a panic.
abbrev pub Pending : Type 0
Pending = record { count : ℕ; started : List Text }

unfoldable pub add_visit : Visit → Text → Pending → Option Pending
add_visit crash path p = none
add_visit skip path p = some p
add_visit export path p =
    some (record { count = (p.count + 1) % 2 ^ 32; started = p.started ++ (path ∷ []) })

unfoldable pub walk_on : (Entry → Bool) → List Entry → Option Pending → Option Pending
walk_on validator es none = none
walk_on validator [] (some p) = some p
walk_on validator (e ∷ es) (some p) = walk_on validator es (add_visit (visit validator e) e.path p)

unfoldable pub walk : (Entry → Bool) → List Entry → Option Pending
walk validator es = walk_on validator es (some (record { count = 0; started = [] }))

module _ (H : Haxmap) (T : Target) (cfg : Config) (faults : Text → Faults) where
  -- The calls that are started, without compression and without removal.
  unfoldable pub flush_all : List Text → State H → State H × List Bool
  flush_all [] s = (s, [])
  flush_all (p ∷ ps) s =
      let (s', done) = export_pcap_file H T cfg (faults p) false false p true s in
      let (s'', rest) = flush_all ps s' in (s'', done ∷ rest)

  unfoldable pub flush_pending : Option Pending → State H → Option (ℕ × State H × List Bool)
  flush_pending none s = none
  flush_pending (some p) s = let (s', done) = flush_all p.started s in some (p.count, s', done)

  -- The count that `flushSrcDir` returns, the state behind all its calls, and what these return.
  unfoldable pub flush_src_dir :
      (Entry → Bool) → List Entry → State H → Option (ℕ × State H × List Bool)
  flush_src_dir validator es s = flush_pending (walk validator es) s
