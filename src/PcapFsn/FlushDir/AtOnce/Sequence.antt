-- ===== src/PcapFsn/FlushDir/AtOnce/Sequence.antt =====
-- The calls one behind the other: each does what it does alone.
use mathlib.Core.Path.{subst}
use cloud_run_tcpdump.Prelude.{
  if◌then◌else◌, Bool-cases, all, ℕ, zero, suc, ◌≡◌, refl, sym, ap, ◌∙◌, inl, inr, Bool, true,
  false, not, ◌&&◌, Option, none, some, List, [], ◌∷◌, map, arith,
}
use cloud_run_tcpdump.Text.{Text, text_eq, contains}
use cloud_run_tcpdump.Text.Laws.{text_eq_iff, contains-all}
use cloud_run_tcpdump.PcapFsn.FileName.{Match, find_submatch}
use cloud_run_tcpdump.PcapFsn.Move.{Fs, Faults, Target}
use cloud_run_tcpdump.PcapFsn.Export.{
  Haxmap, Config, State, flush_file, export_match, export_pcap_file,
}
use cloud_run_tcpdump.PcapFsn.FlushDir.{flush_all}
use cloud_run_tcpdump.PcapFsn.FlushDir.AtOnce.{Thread, checking, returned, target, step_call}
use cloud_run_tcpdump.PcapFsn.FlushDir.AtOnce.Local.{Agree}
use cloud_run_tcpdump.PcapFsn.FlushDir.AtOnce.Alone.{alone, call-Agree_same, call-other}
use cloud_run_tcpdump.PcapFsn.FlushDir.AtOnce.Whole.{go-IsWhole}
use cloud_run_tcpdump.PcapFsn.FlushDir.AtOnce.Apart.{free, are_apart, map-of, all-weaken}

module _ (H : Haxmap) (T : Target) (cfg : Config) (faults : Text → Faults) (active : Bool) where
  abbrev tgt : Text → Text
  tgt = target T cfg faults active

  abbrev pub exported : Text → State H → State H × Bool
  exported p s = export_pcap_file H T cfg (faults p) false false p true s

  abbrev go : Text → ℕ → Thread × Fs → Thread × Fs
  go = alone T cfg faults active

  go-Agree :
      (p : Text) (k : ℕ) (x y : Thread × Fs)
      → x.0 ≡ y.0
      → Agree T (faults p) p (tgt p) x.1 y.1
      → ((go p k x).0 ≡ (go p k y).0) × Agree T (faults p) p (tgt p) (go p k x).1 (go p k y).1
  unfolding alone
  go-Agree p zero x y e h = (e, h)
  go-Agree p (suc k) x y e h =
      let (same, files) = call-Agree_same T cfg faults active p x.0 y.0 x.1 y.1 e h in
      go-Agree p k _ _ same files

  go-other :
      (p : Text) (k : ℕ) (x : Thread × Fs) (q : Text)
      → text_eq (tgt p) q ≡ false
      → (go p k x).1.file q ≡ x.1.file q
  unfolding alone
  go-other p zero x q h = refl
  go-other p (suc k) x q h =
      let y = step_call T cfg faults active p x.0 x.1 in
      go-other p k y q h ∙ call-other T cfg faults active p x.0 x.1 q h

  exported-other :
      (p : Text) (s : State H) (q : Text)
      → s.is_active ≡ active
      → text_eq (tgt p) q ≡ false
      → (exported p s).0.fs.file q ≡ s.fs.file q
  exported-other p s q idle h =
      let (ended, result, files) = go-IsWhole T cfg faults active H p s idle in
      sym (files q) ∙ go-other p 6 (checking, s.fs) q h

  exported-Agree :
      (p : Text) (s s' : State H)
      → s.is_active ≡ active
      → s'.is_active ≡ active
      → Agree T (faults p) p (tgt p) s.fs s'.fs
      → ((exported p s).1 ≡ (exported p s').1)
        × ((exported p s).0.fs.file (tgt p) ≡ (exported p s').0.fs.file (tgt p))
  exported-Agree p s s' idle idle' h =
      let (ended, result, files) = go-IsWhole T cfg faults active H p s idle in
      let (ended', result', files') = go-IsWhole T cfg faults active H p s' idle' in
      let (same, agree) = go-Agree p 6 (checking, s.fs) (checking, s'.fs) refl h in
      (sym result ∙ ap returned same ∙ result', sym (files (tgt p)) ∙ agree.1 ∙ files' (tgt p))

  exported_active : (p : Text) (s : State H) → (exported p s).0.is_active ≡ s.is_active
  unfolding export_pcap_file
  exported_active p s = choice s.is_active _ (match_active (find_submatch cfg.src_dir cfg.exts p))
    where
      choice :
          (b : Bool) (x : State H × Bool)
          → x.0.is_active ≡ s.is_active
          → (if b then (s, false) else x).0.is_active ≡ s.is_active
      choice true x e = refl
      choice false x e = e

      match_active :
          (o : Option Match)
          → (export_match H T cfg (faults p) false false o p true s).0.is_active ≡ s.is_active
      match_active none = unfold export_match in refl
      match_active (some m) = unfold export_match flush_file in refl

  -- A call behind that for another file, which is apart from it.
  exported-behind :
      (r p : Text) (s : State H)
      → s.is_active ≡ active
      → free T cfg faults active p r ≡ true
      → ((exported p (exported r s).0).1 ≡ (exported p s).1)
        × ((exported p (exported r s).0).0.fs.file (tgt p) ≡ (exported p s).0.fs.file (tgt p))
  exported-behind r p s idle h =
      exported-Agree p (exported r s).0 s (exported_active r s ∙ idle) idle
        (exported-other r s p idle (ground arith), exported-other r s (tgt p) idle (ground arith))

  -- What the calls leave at the places of their files, and what they return.
  pub flush_all-exported :
      (ps : List Text) (s : State H)
      → s.is_active ≡ active
      → are_apart T cfg faults active ps ≡ true
      → ((p : Text)
          → contains ps p ≡ true
          → (flush_all H T cfg faults ps s).0.fs.file (tgt p) ≡ (exported p s).0.fs.file (tgt p))
        × ((flush_all H T cfg faults ps s).1 ≡ map (λ p. (exported p s).1) ps)
        × ((q : Text)
            → all (λ p. not (text_eq (tgt p) q)) ps ≡ true
            → (flush_all H T cfg faults ps s).0.fs.file q ≡ s.fs.file q)
  unfolding flush_all contains
  flush_all-exported [] s idle h = ((λ p m. absurd (ground arith)), refl, (λ q m. refl))
  flush_all-exported (r ∷ ps) s idle h =
      let s' = (exported r s).0 in
      let idle' : s'.is_active ≡ active = exported_active r s ∙ idle in
      let (held, results, others) = flush_all-exported ps s' idle' (ground arith) in
      let behind = λ (p : Text) (m : contains ps p ≡ true). exported-behind r p s idle (
        ground (
          arith,
          contains-all (λ q. free T cfg faults active r q && free T cfg faults active q r) ps p,
        )) in
      let unwritten : all (λ p. not (text_eq (tgt p) (tgt r))) ps ≡ true =
        all-weaken (λ q. free T cfg faults active r q && free T cfg faults active q r)
          (λ p. not (text_eq (tgt p) (tgt r))) ps (λ q e. ground arith) (ground arith) in
      (
        λ p m. elim (Bool-cases (text_eq r p)) [
          | inl e ↦
              subst
                (λ t.
                  (flush_all H T cfg faults ps s').0.fs.file (tgt t)
                  ≡ (exported t s).0.fs.file (tgt t))
                ((text_eq_iff r p).0 e) (others (tgt r) unwritten)
          | inr e ↦
              let listed : contains ps p ≡ true = ground arith in
              held p listed ∙ (behind p listed).1
        ],
        ap (λ (l : List Bool). (exported r s).1 ∷ l)
            (results
              ∙ map-of (λ p. (exported p s').1) (λ p. (exported p s).1) ps (λ p m. (behind p m).0)),
        λ q m. others q (ground arith) ∙ exported-other r s q idle (ground arith),
      )
