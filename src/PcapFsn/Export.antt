-- ===== src/PcapFsn/Export.antt =====
-- `exportPcapFile` in pcap-fsnotify/main.go.
pub mod History
pub mod Run
pub mod Flush
pub mod Lines
pub mod Replay
use cloud_run_tcpdump.Prelude.{
  ◌==◌, if◌then◌else◌, ℕ, ◌+◌, ◌%◌, ◌^◌, ◌≡◌, Bool, true, false, ◌&&◌, Option, none, some, List, [],
}
use cloud_run_tcpdump.Text.{Text, text_eq}
use cloud_run_tcpdump.PcapFsn.FileName.{Match, find_submatch, key_of}
use cloud_run_tcpdump.PcapFsn.Move.{Fs, Faults, Target, Moved, move_pcap_to_gcs, is_none}

-- `haxmap.Map` of github.com/alphadose/haxmap, as the program uses it: `lastPcap` by `Get`, `Set`
-- and `CompareAndSwap`, `counters` by `GetOrCompute` of a counter of Go's `sync/atomic` and
-- `Add(1)`.
pub record Haxmap : Type 1 where
  pub Files : Type 0
  pub get : Text → Files → Option Text
  pub set : Text → Text → Files → Files
  pub compare_and_swap : Text → Text → Text → Files → Files × Bool
  pub Counters : Type 0
  pub count : Text → Counters → ℕ
  pub increment : Text → Counters → Counters × ℕ

abbrev pub holds : Option Text → Text → Bool
holds none t = false
holds (some s) t = text_eq s t

pub record IsHaxmap (H : Haxmap) : Type 0 where
  pub get-set :
      (k v : Text) (m : H.Files) (j : Text)
      → H.get j (H.set k v m) ≡ (if text_eq k j then some v else H.get j m)
  pub compare_and_swap_lem :
      (k old v : Text) (m : H.Files)
      → H.compare_and_swap k old v m
        ≡ (if holds (H.get k m) old then (H.set k v m, true) else (m, false))
  pub count-increment :
      (k : Text) (c : H.Counters) (j : Text)
      → H.count j (H.increment k c).0
        ≡ (if text_eq k j then (H.count j c + 1) % 2 ^ 64 else H.count j c)
  pub increment_value :
      (k : Text) (c : H.Counters) → (H.increment k c).1 ≡ (H.count k c + 1) % 2 ^ 64

-- The command line, and the global variables.
pub record Config : Type 0 where
  pub src_dir : Text
  pub gcs_dir : Text
  pub exts : List Text

pub record State (H : Haxmap) : Type 0 where
  pub counters : H.Counters
  pub last_pcap : H.Files
  pub is_active : Bool
  pub fs : Fs

module _ (H : Haxmap) (T : Target) (cfg : Config) (faults : Faults) (compress delete : Bool) where
  abbrev move : Text → State H → Fs × Moved
  move src s = move_pcap_to_gcs T faults src cfg.gcs_dir compress delete s.fs

  -- The branch for `flush`.
  unfoldable pub flush_file : Text → State H → State H × Bool
  flush_file src s = let (fs, moved) = move src s in (record s { fs = fs }, is_none moved.error)

  -- The end of the function: the file that was `last` for the key is moved, and the new file takes
  -- its place, by a swap or, if another file got there, by a plain write.
  unfoldable pub rotate : Text → Text → Text → State H → State H × Bool
  rotate key src last s =
      let (fs, moved) = move last s in
      let (files, swapped) = H.compare_and_swap key last src s.last_pcap in
      (
        record s { fs = fs; last_pcap = if swapped then files else H.set key src files },
        is_none moved.error,
      )

  -- `!loaded || lastPcapFileName == ""`
  unfoldable pub rotate_loaded : Text → Text → Option Text → State H → State H × Bool
  rotate_loaded key src none s = (record s { last_pcap = H.set key src s.last_pcap }, false)
  rotate_loaded key src (some last) s =
      if text_eq last []
      then (record s { last_pcap = H.set key src s.last_pcap }, false)
      else rotate key src last s

  -- Behind the branch for `flush`: the first file of a key only waits.
  unfoldable pub detect_file : Text → Text → State H → State H × Bool
  detect_file key src s =
      let (counters, iteration) = H.increment key s.counters in
      let counted : State H = record s { counters = counters } in
      if iteration == 1
      then (record counted { last_pcap = H.set key src s.last_pcap }, false)
      else rotate_loaded key src (H.get key s.last_pcap) counted

  unfoldable pub export_match : Option Match → Text → Bool → State H → State H × Bool
  export_match none src flush s = (s, false)
  export_match (some m) src flush s =
      if flush then flush_file src s else detect_file (key_of m) src s

  unfoldable pub export_pcap_file : Text → Bool → State H → State H × Bool
  export_pcap_file src flush s =
      if flush && s.is_active
      then (s, false)
      else export_match (find_submatch cfg.src_dir cfg.exts src) src flush s
