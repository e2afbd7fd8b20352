-- ===== src/PcapFsn/FlushDir/Kept.antt =====
-- No capture is lost: what the rotation and the last flush leave of each file.
use cloud_run_tcpdump.Prelude.{
  ◌&&◌, Option-cases, Bool-cases, length, all, ◌^◌, ◌<◌, ◌≡◌, refl, sym, ap, ◌∙◌, ◌≢◌, ◌⊎◌, inl,
  inr, Bool, true, false, not, Option, none, some, List, [], ◌∷◌, arith,
}
use cloud_run_tcpdump.Text.{Text, text_eq}
use cloud_run_tcpdump.Text.Laws.{text_eq_iff}
use cloud_run_tcpdump.PcapFsn.FileName.{find_submatch, key_of}
use cloud_run_tcpdump.PcapFsn.Move.{
  Bytes, Fs, Faults, Target, target_of, encode, move_pcap_to_gcs, is_none,
}
use cloud_run_tcpdump.PcapFsn.Move.Laws.{move-success, move-whole, move-failure}
use cloud_run_tcpdump.PcapFsn.Export.{Haxmap, IsHaxmap, Config, State, export_pcap_file}
use cloud_run_tcpdump.PcapFsn.Export.Flush.{export_pcap_file-flush}
use cloud_run_tcpdump.PcapFsn.Export.History.{History, latest, follow, Tracks}
use cloud_run_tcpdump.PcapFsn.Export.Run.{Event, run, rotation_at, rotation, run-rotation}
use cloud_run_tcpdump.PcapFsn.FlushDir.{flush_all}

module _ (T : Target) (cfg : Config) (compress delete : Bool) (p : Text) (content : Bytes) where
  -- The place in the bucket for the file.
  abbrev pub place : Text
  place = target_of T p cfg.gcs_dir compress

  -- The file is whole at its name, or at its place in the bucket.
  abbrev pub Kept : Fs → Type 0
  Kept fs = (fs.file p ≡ some content) ⊎ (fs.file place ≡ some (encode T compress content))

  moved_own :
      (faults : Faults) (src : Text) (fs : Fs)
      → src ≡ p
      → (move_pcap_to_gcs T faults src cfg.gcs_dir compress delete fs).1.error ≡ none
      → faults.close_cuts ≡ none
      → Kept fs
      → Kept (move_pcap_to_gcs T faults src cfg.gcs_dir compress delete fs).0
  moved_own faults src fs same e shut kept =
      let (c, found, absent, size, files) =
        move-success T faults src cfg.gcs_dir compress delete fs e in
      let there = target_of T src cfg.gcs_dir compress in
      let to : there ≡ place = ap (λ t. target_of T t cfg.gcs_dir compress) same in
      elim kept [
        | inl h ↦
            let held : fs.file src ≡ some content = ap fs.file same ∙ h in
            let moved = (move_pcap_to_gcs T faults src cfg.gcs_dir compress delete fs).0 in
            inr (
              sym (ap moved.file to)
              ∙ move-whole T faults src cfg.gcs_dir compress delete fs content e shut held)
        | inr h ↦
            let gone : fs.file place ≡ none = sym (ap fs.file to) ∙ absent in absurd (cc (gone, h))
      ]

  moved_other :
      (faults : Faults) (src : Text) (fs : Fs)
      → text_eq src p ≡ false
      → text_eq src place ≡ false
      → (move_pcap_to_gcs T faults src cfg.gcs_dir compress delete fs).1.error ≡ none
      → Kept fs
      → Kept (move_pcap_to_gcs T faults src cfg.gcs_dir compress delete fs).0
  moved_other faults src fs other apart e kept =
      let (c, found, absent, size, files) =
        move-success T faults src cfg.gcs_dir compress delete fs e in
      let there = target_of T src cfg.gcs_dir compress in
      ground (arith, files p, files place, text_eq_iff there p, text_eq_iff there place)

  move-Kept :
      (faults : Faults) (src : Text) (fs : Fs)
      → text_eq src place ≡ false
      → faults.close_cuts ≡ none
      → Kept fs
      → Kept (move_pcap_to_gcs T faults src cfg.gcs_dir compress delete fs).0
  move-Kept faults src fs apart shut kept =
      let moved = move_pcap_to_gcs T faults src cfg.gcs_dir compress delete fs in
      elim (Option-cases moved.1.error) [
        | inl e ↦ elim (Bool-cases (text_eq src p)) [
          | inl same ↦ moved_own faults src fs ((text_eq_iff src p).0 same) e shut kept
          | inr other ↦ moved_other faults src fs other apart e kept
        ]
        | inr (f, e) ↦
            let failed : moved.1.error ≢ none = λ h. ground (arith, e, h) in
            elim kept [
              | inl h ↦
                  let there : fs.file p ≢ none = λ k. ground (arith, h, k) in
                  inl (
                    move-failure T faults src cfg.gcs_dir compress delete fs p failed (inl there)
                    ∙ h)
              | inr h ↦
                  let there : fs.file place ≢ none = λ k. ground (arith, h, k) in
                  inr (
                    move-failure T faults src cfg.gcs_dir compress delete fs place failed
                      (inl there)
                    ∙ h)
            ]
      ]

  -- The name is not the file's place in the bucket.
  abbrev pub avoids : Text → Bool
  avoids name = not (text_eq name place)

  latest-avoids :
      (k : Text) (h : History) (last : Text)
      → all (λ (e : Text × Text). avoids e.1) h ≡ true
      → latest k h ≡ some last
      → avoids last ≡ true
  latest-avoids k [] last a e = cc
  latest-avoids k ((j, name) ∷ h) last a e = ground (arith, latest-avoids k h last)

  follow-Kept :
      (faults : Faults) (o : Option Text) (fs : Fs)
      → faults.close_cuts ≡ none
      → ((last : Text) → o ≡ some last → avoids last ≡ true)
      → Kept fs
      → Kept (follow T cfg faults compress delete o fs).0
  follow-Kept faults none fs shut a kept = kept
  follow-Kept faults (some last) fs shut a kept =
      move-Kept faults last fs (ground (arith, a last refl)) shut kept

  -- The destination can be closed, and the name is another one.
  abbrev pub keeps : Event → Bool
  keeps e = is_none e.faults.close_cuts && avoids e.name

  rotation-Kept :
      (es : List Event) (h : History) (fs : Fs)
      → all (λ (e : Text × Text). avoids e.1) h ≡ true
      → all keeps es ≡ true
      → Kept fs
      → Kept (rotation T cfg compress delete es h fs).0
  unfolding rotation rotation_at
  rotation-Kept [] h fs a b kept = kept
  rotation-Kept (e ∷ es) h fs a b kept =
      let shut : e.faults.close_cuts ≡ none = ground (arith, b) in
      elim (Option-cases (find_submatch cfg.src_dir cfg.exts e.name)) [
        | inl f ↦ rw f (rotation-Kept es h fs a (ground (arith, b)) kept)
        | inr (m, f) ↦ rw f (
            rotation-Kept es ((key_of m, e.name) ∷ h) _ (ground (arith, a, b)) (ground (arith, b)) (
              follow-Kept e.faults (latest (key_of m) h) fs shut
                (λ last k. latest-avoids (key_of m) h last a k) kept))
      ]

pub flush_all-present :
    (H : Haxmap) (T : Target) (cfg : Config) (faults : Text → Faults) (ps : List Text) (s : State H)
    (q : Text)
    → s.fs.file q ≢ none
    → (flush_all H T cfg faults ps s).0.fs.file q ≡ s.fs.file q
unfolding flush_all
flush_all-present H T cfg faults [] s q h = refl
flush_all-present H T cfg faults (r ∷ ps) s q h =
    let s' = (export_pcap_file H T cfg (faults r) false false r true s).0 in
    let same : s'.fs.file q ≡ s.fs.file q = (export_pcap_file-flush H T cfg (faults r) r s).0 q h in
    flush_all-present H T cfg faults ps s' q (λ k. h (sym same ∙ k)) ∙ same

module _ (H : Haxmap) (L : IsHaxmap H) (T : Target) (cfg : Config) (compress delete : Bool) where
  -- No capture is lost: behind any sequence of new files, and the last flush of any files, the content
  -- that a file had is whole at its name or, compressed as asked for, at its place in the bucket,
  -- whatever calls to the file system fail but those that close a destination of an export; where no
  -- new file has the name of that place, the two maps are empty at the start, and the new files are
  -- fewer than a counter can hold.
  pub run-flush_all-Kept :
      (es : List Event) (s : State H) (faults : Text → Faults) (ps : List Text) (p : Text)
      (content : Bytes)
      → Tracks H [] s
      → length es < 2 ^ 64
      → all (keeps T cfg compress delete p content) es ≡ true
      → s.fs.file p ≡ some content
      → let rotated = (run H T cfg compress delete es s).0 in
        let ended : State H = record rotated { is_active = false } in
        Kept T cfg compress delete p content (flush_all H T cfg faults ps ended).0.fs
  run-flush_all-Kept es s faults ps p content tracks fits apart held =
      let rotated = (run H T cfg compress delete es s).0 in
      let ended : State H = record rotated { is_active = false } in
      let (same, results) = run-rotation H L T cfg compress delete es s [] tracks (omega arith) in
      let kept : Kept T cfg compress delete p content ended.fs =
        rw same (rotation-Kept T cfg compress delete p content es [] s.fs refl apart (inl held)) in
      elim kept [
        | inl h ↦ inl (flush_all-present H T cfg faults ps ended p (λ k. ground (arith, h, k)) ∙ h)
        | inr h ↦ inr (
            flush_all-present H T cfg faults ps ended (place T cfg compress delete p content)
              (λ k. ground (arith, h, k))
            ∙ h)
      ]
