-- ===== src/PcapFsn/FlushDir/Arrives.antt =====
-- Every capture arrives: the loop over events and the last flush take a file to the bucket.
use cloud_run_tcpdump.Prelude.{
  Option-cases, Bool-cases, all, ◌≡◌, refl, sym, ap, ◌∙◌, ◌≢◌, ◌⊎◌, inl, inr, Bool, true, false,
  not, ◌&&◌, ◌||◌, Option, none, some, List, [], ◌∷◌, arith,
}
use cloud_run_tcpdump.Text.{Text, text_eq, contains}
use cloud_run_tcpdump.Text.Laws.{text_eq_refl, text_eq_iff}
use cloud_run_tcpdump.PcapFsn.FileName.{Match, find_submatch, key_of}
use cloud_run_tcpdump.PcapFsn.Move.{
  Bytes, Fs, Faults, Target, target_of, encode, move_pcap_to_gcs, open_file, create_file, copy_file,
  is_none,
}
use cloud_run_tcpdump.PcapFsn.Move.Laws.{move-success, move-whole}
use cloud_run_tcpdump.PcapFsn.Export.{
  Haxmap, Config, State, export_pcap_file, export_match, flush_file,
}
use cloud_run_tcpdump.PcapFsn.Export.Flush.{export_pcap_file-flush}
use cloud_run_tcpdump.PcapFsn.Export.History.{History, latest, follow}
use cloud_run_tcpdump.PcapFsn.Export.Run.{Event, rotation_at, rotation}
use cloud_run_tcpdump.PcapFsn.FlushDir.{flush_all}
use cloud_run_tcpdump.PcapFsn.FlushDir.Complete.{is_sound, can_flush, flush_one}
use cloud_run_tcpdump.PcapFsn.FlushDir.Kept.{flush_all-present}

-- A move that fails before the copy, or at it, leaves all files as they were, unless the copy breaks off.
move_failed :
    (T : Target) (faults : Faults) (src dir : Text) (compress delete : Bool) (fs : Fs) (q : Text)
    → faults.copy_breaks ≡ none
    → (move_pcap_to_gcs T faults src dir compress delete fs).1.error ≢ none
    → (move_pcap_to_gcs T faults src dir compress delete fs).0.file q ≡ fs.file q
unfolding move_pcap_to_gcs open_file create_file copy_file
move_failed T faults src dir compress delete fs q whole failed = ground arith

module _ (T : Target) (cfg : Config) (compress : Bool) (p : Text) (content : Bytes) where
  -- The places in the bucket for the file, by a regular export and by the last flush.
  abbrev pub place : Text
  place = target_of T p cfg.gcs_dir compress

  abbrev pub plain : Text
  plain = target_of T p cfg.gcs_dir false

  -- The file still waits and its place for the flush is free, or it has been exported.
  abbrev pub Ready : Fs → Type 0
  Ready fs =
      ((fs.file p ≡ some content) × (fs.file plain ≡ none))
      ⊎ (fs.file place ≡ some (encode T compress content))

  -- The whole file is in the bucket.
  abbrev pub Arrived : Fs → Type 0
  Arrived fs = (fs.file plain ≡ some content) ⊎ (fs.file place ≡ some (encode T compress content))

  -- The name is not the file's place in the bucket, and an export of another file by this name leaves
  -- the place for the flush alone.
  abbrev pub spares : Text → Bool
  spares name =
      not (text_eq name place)
      && (text_eq name p || not (text_eq (target_of T name cfg.gcs_dir compress) plain))

  moved-Ready :
      (faults : Faults) (delete : Bool) (src : Text) (fs : Fs)
      → spares src ≡ true
      → (move_pcap_to_gcs T faults src cfg.gcs_dir compress delete fs).1.error ≡ none
      → faults.close_cuts ≡ none
      → Ready fs
      → Ready (move_pcap_to_gcs T faults src cfg.gcs_dir compress delete fs).0
  moved-Ready faults delete src fs apart e shut ready =
      let (c, found, absent, size, files) =
        move-success T faults src cfg.gcs_dir compress delete fs e in
      let there = target_of T src cfg.gcs_dir compress in
      elim ready [
        | inr h ↦ inr (ground (arith, files place, text_eq_iff there place, apart))
        | inl (h, free) ↦ elim (Bool-cases (text_eq src p)) [
          | inl same ↦
              let eq : src ≡ p = (text_eq_iff src p).0 same in
              let held : fs.file src ≡ some content = ap fs.file eq ∙ h in
              let moved = (move_pcap_to_gcs T faults src cfg.gcs_dir compress delete fs).0 in
              let to : there ≡ place = ap (λ t. target_of T t cfg.gcs_dir compress) eq in
              inr (
                sym (ap moved.file to)
                ∙ move-whole T faults src cfg.gcs_dir compress delete fs content e shut held)
          | inr other ↦ inl (
            ground (arith, files p, text_eq_iff there p),
            ground (arith, files plain, text_eq_iff src plain),
          )
        ]
      ]

  move-Ready :
      (faults : Faults) (delete : Bool) (src : Text) (fs : Fs)
      → faults.copy_breaks ≡ none
      → faults.close_cuts ≡ none
      → spares src ≡ true
      → Ready fs
      → Ready (move_pcap_to_gcs T faults src cfg.gcs_dir compress delete fs).0
  move-Ready faults delete src fs whole shut apart ready =
      let moved = move_pcap_to_gcs T faults src cfg.gcs_dir compress delete fs in
      elim (Option-cases moved.1.error) [
        | inl e ↦ moved-Ready faults delete src fs apart e shut ready
        | inr (f, e) ↦
            let same : (q : Text) → moved.0.file q ≡ fs.file q = λ q.
              move_failed T faults src cfg.gcs_dir compress delete fs q whole
                (λ h. ground (arith, e, h)) in
            ground (arith, same p, same plain, same place)
      ]

  latest-spares :
      (k : Text) (h : History) (last : Text)
      → all (λ (e : Text × Text). spares e.1) h ≡ true
      → latest k h ≡ some last
      → spares last ≡ true
  latest-spares k [] last a e = cc
  latest-spares k ((j, name) ∷ h) last a e = ground (arith, latest-spares k h last)

  follow-Ready :
      (faults : Faults) (delete : Bool) (o : Option Text) (fs : Fs)
      → faults.copy_breaks ≡ none
      → faults.close_cuts ≡ none
      → ((last : Text) → o ≡ some last → spares last ≡ true)
      → Ready fs
      → Ready (follow T cfg faults compress delete o fs).0
  follow-Ready faults delete none fs whole shut a ready = ready
  follow-Ready faults delete (some last) fs whole shut a ready =
      move-Ready faults delete last fs whole shut (a last refl) ready

  abbrev pub calm_event : Event → Bool
  calm_event e = is_none e.faults.copy_breaks && is_none e.faults.close_cuts && spares e.name

  pub rotation-Ready :
      (delete : Bool) (es : List Event) (h : History) (fs : Fs)
      → all (λ (e : Text × Text). spares e.1) h ≡ true
      → all calm_event es ≡ true
      → Ready fs
      → Ready (rotation T cfg compress delete es h fs).0
  unfolding rotation rotation_at
  rotation-Ready delete [] h fs a b ready = ready
  rotation-Ready delete (e ∷ es) h fs a b ready =
      let whole : e.faults.copy_breaks ≡ none = ground (arith, b) in
      let shut : e.faults.close_cuts ≡ none = ground (arith, b) in
      elim (Option-cases (find_submatch cfg.src_dir cfg.exts e.name)) [
        | inl f ↦ rw f (rotation-Ready delete es h fs a (ground (arith, b)) ready)
        | inr (m, f) ↦ rw f (
            rotation-Ready delete es ((key_of m, e.name) ∷ h) _ (ground (arith, a, b))
              (ground (arith, b))
              (follow-Ready e.faults delete (latest (key_of m) h) fs whole shut
                (λ last k. latest-spares (key_of m) h last a k) ready))
      ]

  -- The flush of another file leaves the place alone.
  abbrev pub clears : Text → Bool
  clears q = text_eq q p || not (text_eq (target_of T q cfg.gcs_dir false) plain)

  moved_apart :
      (faults : Faults) (src r : Text) (fs : Fs)
      → text_eq (target_of T src cfg.gcs_dir false) r ≡ false
      → (move_pcap_to_gcs T faults src cfg.gcs_dir false false fs).0.file r ≡ fs.file r
  unfolding move_pcap_to_gcs open_file create_file copy_file
  moved_apart faults src r fs apart = ground arith

  module _ (H : Haxmap) (faults : Faults) where
    flushed_apart :
        (o : Option Match) (src r : Text) (s : State H)
        → text_eq (target_of T src cfg.gcs_dir false) r ≡ false
        → (export_match H T cfg faults false false o src true s).0.fs.file r ≡ s.fs.file r
    unfolding export_match flush_file
    flushed_apart none src r s apart = refl
    flushed_apart (some m) src r s apart = moved_apart faults src r s.fs apart

    flush_apart :
        (src r : Text) (s : State H)
        → s.is_active ≡ false
        → text_eq (target_of T src cfg.gcs_dir false) r ≡ false
        → ((export_pcap_file H T cfg faults false false src true s).0.fs.file r ≡ s.fs.file r)
          × ((export_pcap_file H T cfg faults false false src true s).0.is_active ≡ false)
    unfolding export_pcap_file export_match flush_file
    flush_apart src r s idle apart =
        ground (arith, flushed_apart (find_submatch cfg.src_dir cfg.exts src) src r s apart)

  module _ (H : Haxmap) (faults : Text → Faults) where
    waiting-arrives :
        (ok : (r : Text) → is_sound (faults r) ≡ true) (ps : List Text) (s : State H)
        → s.is_active ≡ false
        → is_none (find_submatch cfg.src_dir cfg.exts p) ≡ false
        → all clears ps ≡ true
        → s.fs.file p ≡ some content
        → s.fs.file plain ≡ none
        → contains ps p ≡ true
        → (flush_all H T cfg faults ps s).0.fs.file plain ≡ some content
    unfolding flush_all contains
    waiting-arrives ok [] s idle fits clear held free listed = absurd (ground (arith, listed))
    waiting-arrives ok (q ∷ ps) s idle fits clear held free listed =
        let s' = (export_pcap_file H T cfg (faults q) false false q true s).0 in
        elim (Bool-cases (text_eq q p)) [
          | inl e ↦
              let eq : q ≡ p = (text_eq_iff q p).0 e in
              let can : can_flush H T cfg faults ok s.fs p ≡ true =
                ground (arith, fits, held, free) in
              let one = flush_one H T cfg faults ok p plain s idle can in
              let now : s'.fs.file plain ≡ some content =
                rw eq (one.0 ∙ rw (text_eq_refl plain) held) in
              flush_all-present H T cfg faults ps s' plain (λ k. ground (arith, now, k)) ∙ now
          | inr e ↦
              let other : text_eq (target_of T q cfg.gcs_dir false) plain ≡ false =
                ground (arith, clear) in
              let (free', idle') = flush_apart H (faults q) q plain s idle other in
              let held' : s'.fs.file p ≡ s.fs.file p =
                (export_pcap_file-flush H T cfg (faults q) q s).0 p
                  (λ k. ground (arith, held, k)) in
              waiting-arrives ok ps s' idle' fits (ground (arith, clear)) (held' ∙ held)
                (free' ∙ free) (ground (arith, listed, e))
        ]

    -- Behind the flush, a file that waits and is listed has arrived, and one that was exported still
    -- has.
    pub flush_all-Arrived :
        (ok : (r : Text) → is_sound (faults r) ≡ true) (ps : List Text) (s : State H)
        → s.is_active ≡ false
        → is_none (find_submatch cfg.src_dir cfg.exts p) ≡ false
        → all clears ps ≡ true
        → Ready s.fs
        → (is_none (s.fs.file p) ≡ false → contains ps p ≡ true)
        → Arrived (flush_all H T cfg faults ps s).0.fs
    flush_all-Arrived ok ps s idle fits clear ready listed = elim ready [
      | inl (held, free) ↦
          inl (waiting-arrives ok ps s idle fits clear held free (listed (ground (arith, held))))
      | inr h ↦ inr (flush_all-present H T cfg faults ps s place (λ k. ground (arith, h, k)) ∙ h)
    ]
