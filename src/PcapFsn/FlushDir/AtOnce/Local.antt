-- ===== src/PcapFsn/FlushDir/AtOnce/Local.antt =====
-- A step of a call sees two files only, and writes one.
use mathlib.Core.Path.{subst}
use cloud_run_tcpdump.Prelude.{◌≡◌, refl, false, Option, none, some, arith}
use cloud_run_tcpdump.Text.{Text, text_eq}
use cloud_run_tcpdump.PcapFsn.Move.{Bytes, Fs, Faults, Target}
use cloud_run_tcpdump.PcapFsn.Move.Steps.{
  Pc, opening, creating, copying, closing, deleting, finished, open_step, create_step, copy_step,
  close_step, delete_step, step,
}

module _ (T : Target) (faults : Faults) (src target : Text) where
  abbrev stepped : Pc → Fs → Pc × Fs
  stepped = step T faults src target false false

  -- The two file systems hold the same at both names.
  abbrev pub Agree : Fs → Fs → Type 0
  Agree fs fs' = (fs.file src ≡ fs'.file src) × (fs.file target ≡ fs'.file target)

  abbrev opened : Option Bytes → Fs → Pc × Fs
  opened = open_step T faults src target false false

  open_step-Agree :
      (o : Option Bytes) (fs fs' : Fs)
      → Agree fs fs'
      → ((opened o fs).0 ≡ (opened o fs').0) × Agree (opened o fs).1 (opened o fs').1
  unfolding open_step
  open_step-Agree none fs fs' h = (refl, h)
  open_step-Agree (some content) fs fs' h = ground arith

  open_step-other : (o : Option Bytes) (fs : Fs) (q : Text) → (opened o fs).1.file q ≡ fs.file q
  unfolding open_step
  open_step-other none fs q = refl
  open_step-other (some content) fs q = ground arith

  pub step-Agree :
      (pc : Pc) (fs fs' : Fs)
      → Agree fs fs'
      → ((stepped pc fs).0 ≡ (stepped pc fs').0) × Agree (stepped pc fs).1 (stepped pc fs').1
  unfolding step open_step create_step copy_step close_step delete_step
  step-Agree opening fs fs' h =
      subst
        (λ o.
          ((opened (fs.file src) fs).0 ≡ (opened o fs').0)
          × Agree (opened (fs.file src) fs).1 (opened o fs').1)
        (h.0) (open_step-Agree (fs.file src) fs fs' h)
  step-Agree (creating content) fs fs' h = ground arith
  step-Agree (copying content) fs fs' h = ground arith
  step-Agree (closing bytes) fs fs' h = ground arith
  step-Agree (deleting bytes) fs fs' h = ground arith
  step-Agree (finished moved) fs fs' h = (refl, h)

  pub step-other :
      (pc : Pc) (fs : Fs) (q : Text)
      → text_eq target q ≡ false
      → (stepped pc fs).1.file q ≡ fs.file q
  unfolding step open_step create_step copy_step close_step delete_step
  step-other opening fs q h = open_step-other (fs.file src) fs q
  step-other (creating content) fs q h = ground arith
  step-other (copying content) fs q h = ground arith
  step-other (closing bytes) fs q h = ground arith
  step-other (deleting bytes) fs q h = ground arith
  step-other (finished moved) fs q h = refl
