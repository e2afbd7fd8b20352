-- ===== src/PcapFsn/Export/Run.antt =====
-- A sequence of file events, as the loop in `main` of pcap-fsnotify/main.go hands them on.
use cloud_run_tcpdump.Prelude.{
  length, is_nil, ◌+◌, ◌^◌, ◌≤◌, ◌<◌, ◌≡◌, refl, ap, ◌∙◌, Bool, false, Option, none, some, List, [],
  ◌∷◌, ◌++◌, arith,
}
use cloud_run_tcpdump.Text.{Text, codes, text_eq}
use mathlib.Core.Path.{ap₂}
use cloud_run_tcpdump.PcapFsn.FileName.{Match, find_submatch, key_of, strip_prefix}
use cloud_run_tcpdump.PcapFsn.Move.{Fs, Faults, Target}
use cloud_run_tcpdump.PcapFsn.Export.{
  Haxmap, IsHaxmap, Config, State, export_match, export_pcap_file,
}
use cloud_run_tcpdump.PcapFsn.Export.History.{
  History, latest, follow, Tracks, detect_lem, detect-Tracks,
}

-- The name of a new file, and what the file system does while it is handled.
abbrev pub Event : Type 0
Event = record { name : Text; faults : Faults }

module _ (H : Haxmap) (T : Target) (cfg : Config) (compress delete : Bool) where
  -- The regular calls of `exportPcapFile`, one after the other, and what they return.
  unfoldable pub run : List Event → State H → State H × List Bool
  run [] s = (s, [])
  run (e ∷ es) s =
      let (s', done) = export_pcap_file H T cfg e.faults compress delete e.name false s in
      let (s'', rest) = run es s' in (s'', done ∷ rest)

-- The same from the history alone: a file whose name fits the pattern sends the newest file of its
-- key, if there is one, to the bucket.
module _ (T : Target) (cfg : Config) (compress delete : Bool) where
  unfoldable pub rotation_at : Option Match → Event → History → Fs → History × Fs × Bool
  rotation_at none e h fs = (h, fs, false)
  rotation_at (some m) e h fs =
      let (fs', done) = follow T cfg e.faults compress delete (latest (key_of m) h) fs in
      ((key_of m, e.name) ∷ h, fs', done)

  unfoldable pub rotation : List Event → History → Fs → Fs × List Bool
  rotation [] h fs = (fs, [])
  rotation (e ∷ es) h fs =
      let (h', fs', done) = rotation_at (find_submatch cfg.src_dir cfg.exts e.name) e h fs in
      let (fs'', rest) = rotation es h' fs' in (fs'', done ∷ rest)

strip_prefix-nil : (p : Text) → is_nil p ≡ false → strip_prefix p [] ≡ none
unfolding strip_prefix
strip_prefix-nil [] h = cc
strip_prefix-nil (c ∷ p) h = refl

append-ne-nil : (s t : Text) → is_nil t ≡ false → is_nil (s ++ t) ≡ false
append-ne-nil [] t h = h
append-ne-nil (c ∷ s) t h = refl

-- The empty name fits no pattern.
match_named :
    (dir : Text) (exts : List Text) (name : Text) {m : Match}
    → find_submatch dir exts name ≡ some m
    → text_eq name [] ≡ false
unfolding find_submatch text_eq
match_named dir exts [] e =
    let none_left = strip_prefix-nil (dir ++ codes "/part__") (append-ne-nil dir _ refl) in
    absurd (ground (arith, none_left))
match_named dir exts (c ∷ name) e = refl

module _ (H : Haxmap) (L : IsHaxmap H) (T : Target) (cfg : Config) (compress delete : Bool) where
  -- One call, whatever the pattern says of the name.
  export_at :
      (o : Option Match) (e : Event) (s : State H) (h : History)
      → ((m : Match) → o ≡ some m → text_eq e.name [] ≡ false)
      → Tracks H h s
      → length h + 1 < 2 ^ 64
      → let exported = export_match H T cfg e.faults compress delete o e.name false s in
        let followed = rotation_at T cfg compress delete o e h s.fs in
        Tracks H followed.0 exported.0
        × (exported.0.fs ≡ followed.1)
        × (exported.1 ≡ followed.2)
        × (length followed.0 ≤ length h + 1)
  unfolding export_match rotation_at
  export_at none e s h named tracks fits = (tracks, refl, refl, omega arith)
  export_at (some m) e s h named tracks fits =
      let same =
        detect_lem H L T cfg e.faults compress delete (key_of m) e.name s h tracks fits
          (named m refl) in
      (
        detect-Tracks H L T cfg e.faults compress delete (key_of m) e.name s h tracks fits
            (named m refl),
        ap (λ r. r.0.fs) same,
        ap (λ r. r.1) same,
        omega arith,
      )

  -- The calls for a sequence of new files do to the file system what the rotation does, and return
  -- what it returns: a file whose name fits the pattern sends the newest file of its key before it
  -- to the bucket, and each call returns whether such a file was there and was moved. The two maps
  -- agree with the history at the start, and the events are fewer than a counter can hold.
  pub run-rotation :
      (es : List Event) (s : State H) (h : History)
      → Tracks H h s
      → length h + length es < 2 ^ 64
      → ((run H T cfg compress delete es s).0.fs ≡ (rotation T cfg compress delete es h s.fs).0)
        × ((run H T cfg compress delete es s).1 ≡ (rotation T cfg compress delete es h s.fs).1)
  unfolding run rotation export_pcap_file
  run-rotation [] s h tracks fits = (refl, refl)
  run-rotation (e ∷ es) s h tracks fits =
      let o = find_submatch cfg.src_dir cfg.exts e.name in
      let (tracks', same_fs, same_result, longer) =
        export_at o e s h (λ m f. match_named cfg.src_dir cfg.exts e.name f) tracks (omega arith) in
      let (a, b) = run-rotation es _ _ tracks' (omega arith) in
      (a ∙ rw same_fs, ap₂ ◌∷◌ same_result (b ∙ rw same_fs))
