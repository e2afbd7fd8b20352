-- ===== src/PcapFsn/FlushDir/AtOnce.antt =====
-- The flushing calls of `exportPcapFile` as `flushSrcDir` in pcap-fsnotify/main.go starts them, each in
-- a goroutine of its own: they run at once, and a schedule says whose step comes next. A call is named
-- by its file, which the walk meets once.
pub mod Local
pub mod Alone
pub mod Whole
pub mod Apart
pub mod Sequence
pub mod Equal
use cloud_run_tcpdump.Prelude.{
  if◌then◌else◌, ℕ, zero, suc, Bool, true, false, Option, none, some, List, [], ◌∷◌,
}
use cloud_run_tcpdump.Text.{Text, text_eq}
use cloud_run_tcpdump.PcapFsn.FileName.{Match, find_submatch}
use cloud_run_tcpdump.PcapFsn.Move.{Fs, Faults, Target, target_of, is_none}
use cloud_run_tcpdump.PcapFsn.Move.Steps.{
  Pc, opening, creating, copying, closing, deleting, finished, step,
}
use cloud_run_tcpdump.PcapFsn.Export.{Config}

-- A call before its two tests, in the move, and behind a test that failed.
pub data Thread : Type 0 where
  checking : Thread
  moving : Pc → Thread
  refused : Thread

-- What a call returns; it has not returned yet where this is no `finished` move and not `refused`.
abbrev pub succeeded : Pc → Bool
succeeded opening = false
succeeded (creating content) = false
succeeded (copying content) = false
succeeded (closing bytes) = false
succeeded (deleting bytes) = false
succeeded (finished moved) = is_none moved.error

abbrev pub returned : Thread → Bool
returned checking = false
returned (moving pc) = succeeded pc
returned refused = false

-- The calls, and the files that they share.
pub record Calls : Type 0 where
  pub thread : Text → Thread
  pub fs : Fs

module _ (T : Target) (cfg : Config) (faults : Text → Faults) (active : Bool) where
  abbrev pub target : Text → Text
  target p = target_of T p cfg.gcs_dir false

  abbrev pub matched : Option Match → Thread
  matched none = refused
  matched (some m) = moving opening

  -- A step of the call for a file: the tests of `isActive` and of the pattern, and then the move,
  -- without compression and without removal.
  unfoldable pub step_call : Text → Thread → Fs → Thread × Fs
  step_call p checking fs =
      (if active then refused else matched (find_submatch cfg.src_dir cfg.exts p), fs)
  step_call p (moving pc) fs =
      let (pc', fs') = step T (faults p) p (target p) false false pc fs in (moving pc', fs')
  step_call p refused fs = (refused, fs)

  abbrev pub set_thread : Text → Thread → (Text → Thread) → Text → Thread
  set_thread p t thread q = if text_eq p q then t else thread q

  unfoldable pub step_at : Text → Calls → Calls
  step_at p c =
      let (t, fs) = step_call p (c.thread p) c.fs in
      record { thread = set_thread p t c.thread; fs = fs }

  unfoldable pub run_at_once : List Text → Calls → Calls
  run_at_once [] c = c
  run_at_once (p ∷ schedule) c = run_at_once schedule (step_at p c)

  -- All calls begin.
  abbrev pub start_calls : Fs → Calls
  start_calls fs = record { thread = λ p. checking; fs = fs }
