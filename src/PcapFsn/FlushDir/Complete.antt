-- ===== src/PcapFsn/FlushDir/Complete.antt =====
-- What the flush leaves in the bucket.
use cloud_run_tcpdump.Prelude.{
  if◌then◌else◌, Bool-cases, all, ◌≡◌, refl, ap, ◌∙◌, inl, inr, Bool, true, false, not, ◌&&◌,
  Option, none, some, List, [], ◌∷◌, map, arith,
}
use cloud_run_tcpdump.Text.{Text, text_eq, contains}
use cloud_run_tcpdump.Text.Laws.{contains-all, text_eq_refl, text_eq_refl, text_eq_iff}
use cloud_run_tcpdump.Ext.{distinct}
use cloud_run_tcpdump.PcapFsn.FileName.{Match, find_submatch}
use cloud_run_tcpdump.PcapFsn.Move.{
  Fs, Faults, Target, put, target_of, move_pcap_to_gcs, open_file, create_file, copy_file, is_none,
}
use cloud_run_tcpdump.PcapFsn.Export.{
  Haxmap, Config, State, flush_file, export_match, export_pcap_file,
}
use cloud_run_tcpdump.PcapFsn.FlushDir.{flush_all}

-- No call to the file system fails but for the reason of the files.
abbrev pub is_sound : Faults → Bool
is_sound f = not f.open_fails && not f.create_fails && is_none f.copy_breaks && is_none f.close_cuts

move_pcap_to_gcs_sound :
    (T : Target) (faults : Faults) (src dir : Text) (fs : Fs) (p : Text)
    → is_sound faults ≡ true
    → is_none (fs.file src) ≡ false
    → is_none (fs.file (target_of T src dir false)) ≡ true
    → ((move_pcap_to_gcs T faults src dir false false fs).0.file p
        ≡ put (target_of T src dir false) (fs.file src) fs.file p)
      × ((move_pcap_to_gcs T faults src dir false false fs).1.error ≡ none)
unfolding move_pcap_to_gcs open_file create_file copy_file
move_pcap_to_gcs_sound T faults src dir fs p ok found absent = ground arith

module _ (H : Haxmap) (T : Target) (cfg : Config) (faults : Text → Faults)
    (ok : (p : Text) → is_sound (faults p) ≡ true) where
  -- The place in the bucket for a file.
  abbrev pub target : Text → Text
  target p = target_of T p cfg.gcs_dir false

  -- The file is there, has a name that fits the pattern, and its place in the bucket is free.
  abbrev pub can_flush : Fs → Text → Bool
  can_flush fs p =
      not (is_none (find_submatch cfg.src_dir cfg.exts p))
      && not (is_none (fs.file p))
      && is_none (fs.file (target p))

  flush_matched :
      (o : Option Match) (p q : Text) (s : State H)
      → is_none o ≡ false
      → is_none (s.fs.file p) ≡ false
      → is_none (s.fs.file (target p)) ≡ true
      → ((export_match H T cfg (faults p) false false o p true s).0.fs.file q
          ≡ put (target p) (s.fs.file p) s.fs.file q)
        × ((export_match H T cfg (faults p) false false o p true s).1 ≡ true)
        × ((export_match H T cfg (faults p) false false o p true s).0.is_active ≡ s.is_active)
  unfolding export_match flush_file
  flush_matched none p q s m f a = absurd (ground arith)
  flush_matched (some m) p q s h f a =
      let moved = move_pcap_to_gcs_sound T (faults p) p cfg.gcs_dir s.fs q (ok p) f a in
      (moved.0, ap is_none moved.1, refl)

  exported :
      (p : Text) (s : State H)
      → s.is_active ≡ false
      → export_pcap_file H T cfg (faults p) false false p true s
        ≡ export_match H T cfg
            (faults p)
            false
            false
            (find_submatch cfg.src_dir cfg.exts p)
            p
            true
            s
  unfolding export_pcap_file
  exported p s idle =
      let matched =
        export_match H T cfg (faults p) false false (find_submatch cfg.src_dir cfg.exts p) p true
          s in
      ap (λ b. if b then (s, false) else matched) idle

  pub flush_one :
      (p q : Text) (s : State H)
      → s.is_active ≡ false
      → can_flush s.fs p ≡ true
      → let out = export_pcap_file H T cfg (faults p) false false p true s in
        (out.0.fs.file q ≡ put (target p) (s.fs.file p) s.fs.file q)
        × (out.1 ≡ true)
        × (out.0.is_active ≡ false)
  flush_one p q s idle can =
      let (file, done, active) =
        flush_matched (find_submatch cfg.src_dir cfg.exts p) p q s (ground arith) (ground arith)
          (ground arith) in
      rw (exported p s idle) (file, done, active ∙ idle)

  -- The other files can still be flushed behind a flush of one.
  still :
      (p : Text) (ps : List Text) (fs fs' : Fs)
      → ((q : Text) → fs'.file q ≡ put (target p) (fs.file p) fs.file q)
      → is_none (fs.file (target p)) ≡ true
      → contains (map target ps) (target p) ≡ false
      → all (can_flush fs) ps ≡ true
      → all (can_flush fs') ps ≡ true
  unfolding contains
  still p [] fs fs' e free other can = refl
  still p (q ∷ ps) fs fs' e free other can = ground (
    arith,
    still p ps fs fs' e free,
    e q,
    e (target q),
    text_eq_iff (target p) q,
    text_eq_iff (target p) (target q),
    text_eq_iff (target q) (target p),
  )

  flush_unlisted :
      (ps : List Text) (s : State H) (q : Text)
      → s.is_active ≡ false
      → all (can_flush s.fs) ps ≡ true
      → distinct (map target ps) ≡ true
      → contains (map target ps) q ≡ false
      → (flush_all H T cfg faults ps s).0.fs.file q ≡ s.fs.file q
  unfolding flush_all contains distinct
  flush_unlisted [] s q idle can once other = refl
  flush_unlisted (p ∷ ps) s q idle can once other =
      let s' = (export_pcap_file H T cfg (faults p) false false p true s).0 in
      let first : can_flush s.fs p ≡ true = ground arith in
      let step = flush_one p q s idle first in
      let more =
        still p ps s.fs s'.fs (λ r. (flush_one p r s idle first).0) (ground arith) (ground arith)
          (ground arith) in
      flush_unlisted ps s' q step.2 more (ground arith) (ground arith) ∙ ground (arith, step.0)

  -- Files that are there, fit the pattern, and have free and different places in the bucket: behind
  -- the flush, in whatever order it takes them, each place holds what its file held, and every call
  -- reports success; where no call to the file system fails and the watcher is inactive.
  pub flush_all_complete :
      (ps : List Text) (s : State H)
      → s.is_active ≡ false
      → all (can_flush s.fs) ps ≡ true
      → distinct (map target ps) ≡ true
      → ((p : Text)
          → contains ps p ≡ true
          → (flush_all H T cfg faults ps s).0.fs.file (target p) ≡ s.fs.file p)
        × (all (λ b. b) (flush_all H T cfg faults ps s).1 ≡ true)
  unfolding flush_all contains distinct
  flush_all_complete [] s idle can once = ((λ p h. absurd (ground arith)), refl)
  flush_all_complete (r ∷ ps) s idle can once =
      let s' = (export_pcap_file H T cfg (faults r) false false r true s).0 in
      let first : can_flush s.fs r ≡ true = ground arith in
      let step = flush_one r r s idle first in
      let apart : contains (map target ps) (target r) ≡ false = ground arith in
      let others : all (can_flush s.fs) ps ≡ true = ground arith in
      let more =
        still r ps s.fs s'.fs (λ q. (flush_one r q s idle first).0) (ground arith) apart others in
      let (held, succeeded) = flush_all_complete ps s' step.2 more (ground arith) in
      (
        λ p h. elim (Bool-cases (text_eq r p)) [
          | inl e ↦
              let same : r ≡ p = (text_eq_iff r p).0 e in
              rw (← same) (
                flush_unlisted ps s' (target r) step.2 more (ground arith) apart
                ∙ (flush_one r (target r) s idle first).0
                ∙ rw (text_eq_refl (target r)) refl)
          | inr e ↦
              let listed : contains ps p ≡ true = ground arith in
              let there : can_flush s.fs p ≡ true =
                contains-all (can_flush s.fs) ps p others listed in
              let apart' : text_eq (target r) p ≡ false =
                ground (arith, text_eq_iff (target r) p) in
              held p listed ∙ (flush_one r p s idle first).0 ∙ rw apart' refl
        ],
        ground (arith, step.1, succeeded),
      )
