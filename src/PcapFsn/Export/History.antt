-- ===== src/PcapFsn/Export/History.antt =====
-- The rotation of files: each new file of a key sends the one before it to the bucket.
use cloud_run_tcpdump.Prelude.{
  ◌==◌, if◌then◌else◌, Option-cases, length, ℕ, ◌+◌, ◌^◌, ◌≤◌, ◌<◌, ◌≡◌, refl, ◌∙◌, inl, inr, Bool,
  true, false, not, ◌&&◌, Option, none, some, List, [], ◌∷◌, arith,
}
use cloud_run_tcpdump.Text.{Text, text_eq}
use cloud_run_tcpdump.Text.Laws.{text_eq_refl}
use cloud_run_tcpdump.PcapFsn.Move.{Fs, Faults, Target, move_pcap_to_gcs, is_none}
use cloud_run_tcpdump.PcapFsn.Export.{
  Haxmap, IsHaxmap, Config, State, rotate, rotate_loaded, detect_file,
}

-- The files that were seen, the newest first, each with its key.
abbrev pub History : Type 0
History = List (Text × Text)

-- The newest file of a key, and how many files the key has had.
abbrev pub latest : Text → History → Option Text
latest k [] = none
latest k ((j, name) ∷ h) = if text_eq j k then some name else latest k h

abbrev pub seen : Text → History → ℕ
seen k [] = 0
seen k ((j, name) ∷ h) = if text_eq j k then seen k h + 1 else seen k h

-- No file has an empty name.
abbrev pub no_blank : History → Bool
no_blank [] = true
no_blank ((j, name) ∷ h) = not (text_eq name []) && no_blank h

module _ (H : Haxmap) where
  -- The two maps agree with the history.
  pub record Tracks (h : History) (s : State H) : Type 0 where
    pub counted : (k : Text) → H.count k s.counters ≡ seen k h
    pub waiting : (k : Text) → H.get k s.last_pcap ≡ latest k h
    pub named : no_blank h ≡ true

-- What a new file of a key does to the file system, and what its call returns: the file before it,
-- if there is one, is moved.
abbrev pub follow : Target → Config → Faults → Bool → Bool → Option Text → Fs → Fs × Bool
follow T cfg faults compress delete none fs = (fs, false)
follow T cfg faults compress delete (some last) fs =
    let (fs', moved) = move_pcap_to_gcs T faults last cfg.gcs_dir compress delete fs in
    (fs', is_none moved.error)

latest-seen : (k : Text) (h : History) → latest k h ≡ none → seen k h ≡ 0
latest-seen k [] e = refl
latest-seen k ((j, name) ∷ h) e = ground (arith, latest-seen k h)

seen-latest : (k : Text) (h : History) (last : Text) → latest k h ≡ some last → 0 < seen k h
seen-latest k [] last e = cc
seen-latest k ((j, name) ∷ h) last e = ground (arith, seen-latest k h last)

seen-le : (k : Text) (h : History) → seen k h ≤ length h
seen-le k [] = omega arith
seen-le k ((j, name) ∷ h) = ground (arith, seen-le k h)

latest-named :
    (k : Text) (h : History) (last : Text)
    → no_blank h ≡ true
    → latest k h ≡ some last
    → text_eq last [] ≡ false
latest-named k [] last n e = cc
latest-named k ((j, name) ∷ h) last n e = ground (arith, latest-named k h last)

module _ (H : Haxmap) (L : IsHaxmap H) (T : Target) (cfg : Config) (faults : Faults)
    (compress delete : Bool) (key src : Text) (s : State H) where
  abbrev pub detect : State H × Bool
  detect = detect_file H T cfg faults compress delete key src s

  module _ (h : History) (tracks : Tracks H h s) (fits : length h + 1 < 2 ^ 64)
      (proper : text_eq src [] ≡ false) where
    iteration_lem : (H.increment key s.counters).1 ≡ seen key h + 1
    iteration_lem =
        ground (arith, L.increment_value key s.counters, tracks.counted key, seen-le key h)

    -- The first file of a key only waits.
    detect_first :
        latest key h ≡ none
        → detect ≡ (
          record s {
            counters = (H.increment key s.counters).0;
            last_pcap = H.set key src s.last_pcap;
          },
          false,
        )
    unfolding detect_file
    detect_first e =
        let it : ((H.increment key s.counters).1 == 1) ≡ true =
          ground (arith, iteration_lem, latest-seen key h) in
        rw (it, detect_file)

    detect_next :
        (last : Text)
        → latest key h ≡ some last
        → let moved = move_pcap_to_gcs T faults last cfg.gcs_dir compress delete s.fs in
          detect ≡ (
            record s {
              counters = (H.increment key s.counters).0;
              last_pcap = H.set key src s.last_pcap;
              fs = moved.0;
            },
            is_none moved.1.error,
          )
    unfolding detect_file rotate_loaded rotate
    detect_next last e =
        let it : ((H.increment key s.counters).1 == 1) ≡ false =
          ground (arith, iteration_lem, seen-latest key h last) in
        let waits : H.get key s.last_pcap ≡ some last = tracks.waiting key ∙ e in
        let named : text_eq last [] ≡ false = latest-named key h last tracks.named e in
        let swap : H.compare_and_swap key last src s.last_pcap ≡ (H.set key src s.last_pcap, true) =
          ground (arith, L.compare_and_swap_lem key last src s.last_pcap, text_eq_refl last) in
        rw (it, waits, named, swap)

    pub detect_lem : detect ≡ (
      record s {
        counters = (H.increment key s.counters).0;
        last_pcap = H.set key src s.last_pcap;
        fs = (follow T cfg faults compress delete (latest key h) s.fs).0;
      },
      (follow T cfg faults compress delete (latest key h) s.fs).1,
    )
    detect_lem = elim (Option-cases (latest key h)) [
      | inl e ↦ rw e (detect_first e)
      | inr (last, e) ↦ rw e (detect_next last e)
    ]

    pub detect-Tracks : Tracks H ((key, src) ∷ h) detect.0
    detect-Tracks = rw detect_lem (record {
      counted =
          λ k. ground (arith, L.count-increment key s.counters k, tracks.counted k, seen-le k h);
      waiting = λ k. ground (arith, L.get-set key src s.last_pcap k, tracks.waiting k);
      named = ground (arith, tracks.named);
    })
