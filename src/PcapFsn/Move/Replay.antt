-- ===== src/PcapFsn/Move/Replay.antt =====
-- What the log of pcap-fsnotify/main.go tells about the files: they can be computed from its entries,
-- here those of a move.
use cloud_run_tcpdump.Prelude.{
  if◌then◌else◌, Bool-cases, ◌≡◌, refl, ap, ◌∙◌, inl, inr, Bool, false, not, ◌&&◌, ◌||◌, length, ℕ,
  ◌+◌, Option, none, some, List, [], ◌∷◌, ◌++◌,
}
use cloud_run_tcpdump.Text.{Text, codes, text_eq}
use cloud_run_tcpdump.PcapFsn.Log.{
  Source, Level, info, error, PcapEvent, Value, as_text, as_number, as_event, get, set, copy, Entry,
  with_error, log_event, log_fs_event,
}
use cloud_run_tcpdump.PcapFsn.Move.{
  Bytes, Fs, Faults, Target, put, encode, target_of, copy_file, create_file, open_file,
  move_pcap_to_gcs, is_none,
}
use cloud_run_tcpdump.PcapFsn.Move.Lines.{
  Errors, remove_lines, copy_lines, create_lines, open_failed_lines, open_lines, move_lines,
}
use cloud_run_tcpdump.PcapFsn.FileName.{strip_prefix}

abbrev pub starts : Text → Text → Bool
starts prefix t = not (is_none (strip_prefix prefix t))

abbrev pub Files : Type 0
Files = Text → Option Bytes

module _ (T : Target) (compress : Bool) where
  abbrev pub encoded : Option Bytes → Option Bytes
  encoded none = none
  encoded (some content) = some (encode T compress content)

  -- A file was copied to its place in the bucket, or removed.
  unfoldable pub replay_value : Text → Option Value → Files → Files
  replay_value message none file = file
  replay_value message (some (as_text t)) file = file
  replay_value message (some (as_number n)) file = file
  replay_value message (some (as_event e)) file =
      if starts (codes "COPIED: ") message
      then put e.target (encoded (file e.source)) file
      else if starts (codes "DELETED: ") message
      then put e.source none file
      else file

  -- The files behind the entries of a log, in order.
  unfoldable pub replay : List Entry → Files → Files
  replay [] file = file
  replay (e ∷ es) file = replay es (replay_value e.message (get (codes "fs") e.fields) file)

  pub replay_nil : (file : Files) → replay [] file ≡ file
  unfolding replay
  replay_nil file = refl

  pub replay-append :
      (xs ys : List Entry) (file : Files) → replay (xs ++ ys) file ≡ replay ys (replay xs file)
  unfolding replay
  replay-append [] ys file = refl
  replay-append (x ∷ xs) ys file =
      replay-append xs ys (replay_value x.message (get (codes "fs") x.fields) file)

  module _ (log : Source) (errors : Errors) where
    replay_copied :
        (src target : Text) (bytes : ℕ) (rest : List Entry) (file : Files)
        → replay
            (log_fs_event log info
                (codes "COPIED: " ++ src)
                PcapEvent.exported
                src
                target
                bytes
                none
              ∷ rest)
            file
          ≡ replay rest (put target (encoded (file src)) file)
    unfolding replay replay_value log_fs_event log_event with_error get set copy text_eq
        strip_prefix
    replay_copied src target bytes rest file = refl

    replay_deleted :
        (src target : Text) (bytes : ℕ) (rest : List Entry) (file : Files)
        → replay
            (log_fs_event log info
                (codes "DELETED: " ++ src)
                PcapEvent.exported
                src
                target
                bytes
                none
              ∷ rest)
            file
          ≡ replay rest (put src none file)
    unfolding replay replay_value log_fs_event log_event with_error get set copy text_eq
        strip_prefix
    replay_deleted src target bytes rest file = refl

    -- An entry with another message leaves the files alone.
    pub replay_other :
        (level : Level) (message : Text) (event : PcapEvent) (src target : Text) (bytes : ℕ)
        (err : Option Text) (rest : List Entry) (file : Files)
        → starts (codes "COPIED: ") message ≡ false
        → starts (codes "DELETED: ") message ≡ false
        → replay (log_fs_event log level message event src target bytes err ∷ rest) file
          ≡ replay rest file
    unfolding replay replay_value log_fs_event log_event with_error get set copy text_eq
    replay_other level message event src target bytes none rest file c d = rw (c, d) refl
    replay_other level message event src target bytes (some e) rest file c d = rw (c, d) refl

    pub replay_last :
        (level : Level) (message : Text) (event : PcapEvent) (src target : Text) (bytes : ℕ)
        (err : Option Text) (file : Files)
        → starts (codes "COPIED: ") message ≡ false
        → starts (codes "DELETED: ") message ≡ false
        → replay (log_fs_event log level message event src target bytes err ∷ []) file ≡ file
    unfolding replay
    replay_last level message event src target bytes err file c d =
        replay_other level message event src target bytes err [] file c d

    module _ (faults : Faults) (src target : Text) (delete : Bool) (fs : Fs)
        (whole : faults.copy_breaks ≡ none) (shut : faults.close_cuts ≡ none) where
      remove_lines-replay :
          (bytes : ℕ) (file : Files)
          → replay (if delete then remove_lines log errors T faults src target bytes else []) file
            ≡ (if delete && not faults.remove_fails then put src none file else file)
      unfolding remove_lines strip_prefix replay
      remove_lines-replay bytes file = elim (Bool-cases delete) [
        | inl d ↦ elim (Bool-cases faults.remove_fails) [
          | inl r ↦
              rw (d, r) (replay_last error _ PcapEvent.exported src target bytes _ file refl refl)
          | inr r ↦ rw (d, r) (replay_deleted src target bytes [] file)
        ]
        | inr d ↦ rw d refl
      ]

      copy_lines-replay :
          (content : Bytes) (h : ℕ)
          → fs.file src ≡ some content
          → replay (copy_lines log errors T faults src target delete content) fs.file
            ≡ (copy_file T faults src target compress delete content
                (record fs { handles = h })).0.file
      unfolding copy_lines copy_file
      copy_lines-replay content h e =
          let written = put target (some (encode T compress content)) fs.file in
          let bytes = length content in
          simp (whole, shut)
            (replay_copied src target bytes _ fs.file
              ∙ ap
                  (λ (o : Option Bytes).
                    replay
                      (if delete then remove_lines log errors T faults src target bytes else [])
                      (put target (encoded o) fs.file))
                  e
              ∙ remove_lines-replay bytes written)

      create_lines-replay :
          (content : Bytes) (h : ℕ)
          → fs.file src ≡ some content
          → replay (create_lines log errors T faults src target delete content fs) fs.file
            ≡ (create_file T faults src target compress delete content
                (record fs { handles = h })).0.file
      unfolding create_lines create_file strip_prefix
      create_lines-replay content h e =
          elim (Bool-cases (faults.create_fails || not (is_none (fs.file target)))) [
            | inl f ↦ rw f (replay_last error _ PcapEvent.exported src target 0 _ fs.file refl refl)
            | inr f ↦ rw f (copy_lines-replay content (h + 1) e)
          ]

      open_lines-replay :
          (o : Option Bytes)
          → fs.file src ≡ o
          → replay (open_lines log errors T faults src target delete o fs) fs.file
            ≡ (open_file T faults src target compress delete o fs).0.file
      unfolding open_lines open_failed_lines open_file strip_prefix
      open_lines-replay none e =
          replay_last error _ PcapEvent.exported src target 0 _ fs.file refl refl
      open_lines-replay (some content) e = elim (Bool-cases faults.open_fails) [
        | inl f ↦ rw f (replay_last error _ PcapEvent.exported src target 0 _ fs.file refl refl)
        | inr f ↦ simp f (create_lines-replay content (fs.handles + 1) e)
      ]

    pub move_lines-replay :
        (faults : Faults) (src dst_dir : Text) (delete : Bool) (fs : Fs)
        → faults.copy_breaks ≡ none
        → faults.close_cuts ≡ none
        → replay (move_lines log errors T faults src dst_dir compress delete fs) fs.file
          ≡ (move_pcap_to_gcs T faults src dst_dir compress delete fs).0.file
    unfolding move_lines move_pcap_to_gcs
    move_lines-replay faults src dst_dir delete fs whole shut =
        let target = target_of T src dst_dir compress in
        open_lines-replay faults src target delete fs whole shut (fs.file src) refl
