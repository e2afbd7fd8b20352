-- ===== src/PcapFsn/FlushDir/AtOnce/Alone.antt =====
-- A call among others goes the way that it goes alone.
use mathlib.Core.Path.{subst}
use cloud_run_tcpdump.Prelude.{
  if◌then◌else◌, Bool-cases, all, ℕ, zero, suc, ◌≡◌, refl, sym, ap, ◌∙◌, inl, inr, Bool, true,
  false, not, ◌&&◌, ◌||◌, List, [], ◌∷◌, arith,
}
use cloud_run_tcpdump.Text.{Text, text_eq}
use cloud_run_tcpdump.Text.Laws.{text_eq_iff, text_eq_refl}
use cloud_run_tcpdump.PcapFsn.Move.{Fs, Faults, Target}
use cloud_run_tcpdump.PcapFsn.Export.{Config}
use cloud_run_tcpdump.PcapFsn.FlushDir.AtOnce.{
  Thread, checking, moving, refused, Calls, target, step_call, step_at, run_at_once,
}
use cloud_run_tcpdump.PcapFsn.FlushDir.AtOnce.Local.{Agree, step-Agree, step-other}

-- How many steps of a schedule are those of a call.
abbrev pub turns : Text → List Text → ℕ
turns p [] = 0
turns p (q ∷ schedule) = let rest = turns p schedule in if text_eq q p then suc rest else rest

module _ (T : Target) (cfg : Config) (faults : Text → Faults) (active : Bool) where
  abbrev tgt : Text → Text
  tgt = target T cfg faults active

  abbrev call : Text → Thread → Fs → Thread × Fs
  call = step_call T cfg faults active

  -- A number of steps of one call, with no other in between.
  unfoldable pub alone : Text → ℕ → Thread × Fs → Thread × Fs
  alone p zero x = x
  alone p (suc k) x = alone p k (call p x.0 x.1)

  call-Agree :
      (p : Text) (t : Thread) (fs fs' : Fs)
      → Agree T (faults p) p (tgt p) fs fs'
      → ((call p t fs).0 ≡ (call p t fs').0)
        × Agree T (faults p) p (tgt p) (call p t fs).1 (call p t fs').1
  unfolding step_call
  call-Agree p checking fs fs' h = (refl, h)
  call-Agree p (moving pc) fs fs' h =
      let (same, files) = step-Agree T (faults p) p (tgt p) pc fs fs' h in (ap moving same, files)
  call-Agree p refused fs fs' h = (refl, h)

  -- Where it is the same call, on two file systems.
  pub call-Agree_same :
      (p : Text) (t t' : Thread) (fs fs' : Fs)
      → t ≡ t'
      → Agree T (faults p) p (tgt p) fs fs'
      → ((call p t fs).0 ≡ (call p t' fs').0)
        × Agree T (faults p) p (tgt p) (call p t fs).1 (call p t' fs').1
  call-Agree_same p t t' fs fs' e h =
      subst
        (λ u.
          ((call p t fs).0 ≡ (call p u fs').0)
          × Agree T (faults p) p (tgt p) (call p t fs).1 (call p u fs').1)
        e (call-Agree p t fs fs' h)

  pub call-other :
      (p : Text) (t : Thread) (fs : Fs) (q : Text)
      → text_eq (tgt p) q ≡ false
      → (call p t fs).1.file q ≡ fs.file q
  unfolding step_call
  call-other p checking fs q h = refl
  call-other p (moving pc) fs q h = step-other T (faults p) p (tgt p) pc fs q h
  call-other p refused fs q h = refl

  -- The call is where it is alone, and its two files hold what they hold then.
  abbrev pub Follows : Text → Calls → Thread × Fs → Type 0
  Follows p c x = (c.thread p ≡ x.0) × Agree T (faults p) p (tgt p) c.fs x.1

  -- The call for `q` does not write a file of the call for `p`.
  abbrev pub apart : Text → Text → Bool
  apart p q = text_eq q p || not (text_eq (tgt q) p) && not (text_eq (tgt q) (tgt p))

  Follows-own :
      (p : Text) (c : Calls) (x : Thread × Fs)
      → Follows p c x
      → Follows p (step_at T cfg faults active p c) (call p x.0 x.1)
  unfolding step_at
  Follows-own p c x h =
      let (same, files) = call-Agree_same p (c.thread p) x.0 c.fs x.1 (h.0) (h.1) in
      (rw (text_eq_refl p) same, files)

  Follows-other :
      (p q : Text) (c : Calls) (x : Thread × Fs)
      → text_eq q p ≡ false
      → apart p q ≡ true
      → Follows p c x
      → Follows p (step_at T cfg faults active q c) x
  unfolding step_at
  Follows-other p q c x other free h =
      let source : text_eq (tgt q) p ≡ false = ground arith in
      let dest : text_eq (tgt q) (tgt p) ≡ false = ground arith in
      (
        rw other (h.0),
        (
          call-other q (c.thread q) c.fs p source ∙ h.1.0,
          call-other q (c.thread q) c.fs (tgt p) dest ∙ h.1.1,
        ),
      )

  pub run_at_once-Follows :
      (p : Text) (schedule : List Text) (c : Calls) (x : Thread × Fs)
      → all (apart p) schedule ≡ true
      → Follows p c x
      → Follows p (run_at_once T cfg faults active schedule c) (alone p (turns p schedule) x)
  unfolding run_at_once alone
  run_at_once-Follows p [] c x free h = h
  run_at_once-Follows p (q ∷ schedule) c x free h = elim (Bool-cases (text_eq q p)) [
    | inl e ↦
        let same : p ≡ q = sym ((text_eq_iff q p).0 e) in
        let stepped : Follows p (step_at T cfg faults active q c) (call p x.0 x.1) =
          subst (λ r. Follows p (step_at T cfg faults active r c) (call p x.0 x.1)) same
            (Follows-own p c x h) in
        rw e (
          run_at_once-Follows p schedule (step_at T cfg faults active q c) (call p x.0 x.1)
            (ground arith) stepped)
    | inr e ↦ rw e (
        run_at_once-Follows p schedule (step_at T cfg faults active q c) x (ground arith)
          (Follows-other p q c x e (ground arith) h))
  ]

  -- Files that no call writes stay as they are.
  pub run_at_once-other :
      (schedule : List Text) (c : Calls) (q : Text)
      → all (λ p. not (text_eq (tgt p) q)) schedule ≡ true
      → (run_at_once T cfg faults active schedule c).fs.file q ≡ c.fs.file q
  unfolding run_at_once step_at
  run_at_once-other [] c q h = refl
  run_at_once-other (p ∷ schedule) c q h =
      run_at_once-other schedule (step_at T cfg faults active p c) q (ground arith)
      ∙ call-other p (c.thread p) c.fs q (ground arith)
