-- ===== src/PcapFsn/FlushDir/AtOnce/Whole.antt =====
-- A call that goes alone is the call of `exportPcapFile` as a whole.
use mathlib.Core.Path.{subst}
use cloud_run_tcpdump.Prelude.{
  if◌then◌else◌, ℕ, zero, suc, ◌≤◌, ◌≡◌, refl, ap, ◌∙◌, Bool, true, false, Option, none, some,
  arith,
}
use cloud_run_tcpdump.Text.{Text}
use cloud_run_tcpdump.PcapFsn.FileName.{Match, find_submatch}
use cloud_run_tcpdump.PcapFsn.Move.{Fs, Faults, Target}
use cloud_run_tcpdump.PcapFsn.Move.Steps.{
  Pc, opening, creating, copying, closing, deleting, finished, step, steps, steps-move,
}
use cloud_run_tcpdump.PcapFsn.Export.{
  Haxmap, Config, State, flush_file, export_match, export_pcap_file,
}
use cloud_run_tcpdump.PcapFsn.FlushDir.AtOnce.{
  Thread, checking, moving, refused, returned, target, matched, step_call,
}
use cloud_run_tcpdump.PcapFsn.FlushDir.AtOnce.Alone.{alone}

abbrev pub has_ended : Thread → Bool
has_ended checking = false
has_ended (moving opening) = false
has_ended (moving (creating content)) = false
has_ended (moving (copying content)) = false
has_ended (moving (closing bytes)) = false
has_ended (moving (deleting bytes)) = false
has_ended (moving (finished moved)) = true
has_ended refused = true

module _ (T : Target) (cfg : Config) (faults : Text → Faults) (active : Bool) where
  abbrev call : Text → Thread → Fs → Thread × Fs
  call = step_call T cfg faults active

  call-ended : (p : Text) (t : Thread) (fs : Fs) → has_ended t ≡ true → call p t fs ≡ (t, fs)
  unfolding step_call step
  call-ended p checking fs h = absurd (ground arith)
  call-ended p (moving opening) fs h = absurd (ground arith)
  call-ended p (moving (creating content)) fs h = absurd (ground arith)
  call-ended p (moving (copying content)) fs h = absurd (ground arith)
  call-ended p (moving (closing bytes)) fs h = absurd (ground arith)
  call-ended p (moving (deleting bytes)) fs h = absurd (ground arith)
  call-ended p (moving (finished moved)) fs h = refl
  call-ended p refused fs h = refl

  abbrev go : Text → ℕ → Thread × Fs → Thread × Fs
  go = alone T cfg faults active

  go-ended : (p : Text) (k : ℕ) (x : Thread × Fs) → has_ended x.0 ≡ true → go p k x ≡ x
  unfolding alone
  go-ended p zero x h = refl
  go-ended p (suc k) x h = ap (go p k) (call-ended p x.0 x.1 h) ∙ go-ended p k x h

  -- More steps change nothing once the call has ended.
  pub go-more :
      (p : Text) (j k : ℕ) (x : Thread × Fs)
      → j ≤ k
      → has_ended (go p j x).0 ≡ true
      → go p k x ≡ go p j x
  unfolding alone
  go-more p zero k x h e = go-ended p k x e
  go-more p (suc j) zero x h e = absurd (omega arith)
  go-more p (suc j) (suc k) x h e = go-more p j k (call p x.0 x.1) (omega arith) e

  go-moving :
      (p : Text) (k : ℕ) (pc : Pc) (fs : Fs)
      → let out = steps T (faults p) p (target T cfg faults active p) false false k (pc, fs) in
        go p k (moving pc, fs) ≡ (moving out.0, out.1)
  unfolding alone steps step_call
  go-moving p zero pc fs = refl
  go-moving p (suc k) pc fs =
      let out = step T (faults p) p (target T cfg faults active p) false false pc fs in
      go-moving p k out.0 out.1

  module _ (H : Haxmap) where
    -- The call has ended with the result, and the files, of the call as a whole.
    abbrev pub IsWhole : Thread × Fs → State H × Bool → Type 0
    IsWhole (t, fs) (s, done) =
        (has_ended t ≡ true) × (returned t ≡ done) × ((q : Text) → fs.file q ≡ s.fs.file q)

    matched-IsWhole :
        (p : Text) (o : Option Match) (s : State H)
        → IsWhole
            (go p 5 (matched T cfg faults active o, s.fs))
            (export_match H T cfg (faults p) false false o p true s)
    unfolding export_match flush_file
    matched-IsWhole p none s = rw (go-ended p 5 (refused, s.fs) refl) (refl, refl, λ q. refl)
    matched-IsWhole p (some m) s =
        let (pc, handles, files) = steps-move T (faults p) p cfg.gcs_dir false false s.fs in
        rw (go-moving p 5 opening s.fs) (rw pc refl, rw pc refl, files)

    refused-IsWhole :
        (b : Bool) (p : Text) (t : Thread) (s : State H) (out : State H × Bool)
        → IsWhole (go p 5 (t, s.fs)) out
        → IsWhole (go p 5 ((if b then refused else t), s.fs)) (if b then (s, false) else out)
    refused-IsWhole true p t s out h =
        rw (go-ended p 5 (refused, s.fs) refl) (refl, refl, λ q. refl)
    refused-IsWhole false p t s out h = h

    -- Six steps of a call are the call as a whole.
    pub go-IsWhole :
        (p : Text) (s : State H)
        → s.is_active ≡ active
        → IsWhole
            (go p 6 (checking, s.fs))
            (export_pcap_file H T cfg (faults p) false false p true s)
    unfolding export_pcap_file alone step_call
    go-IsWhole p s h =
        let o = find_submatch cfg.src_dir cfg.exts p in
        let t = matched T cfg faults active o in
        let out = export_match H T cfg (faults p) false false o p true s in
        subst
          (λ b.
            IsWhole (go p 5 ((if b then refused else t), s.fs))
              (if s.is_active then (s, false) else out))
          h (refused-IsWhole s.is_active p t s out (matched-IsWhole p o s))
