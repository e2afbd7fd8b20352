-- ===== src/PcapFsn/Move/Lines.antt =====
-- What `movePcapToGcs` in pcap-fsnotify/main.go logs. The functions branch as those of `PcapFsn.Move` do.
use cloud_run_tcpdump.Prelude.{
  if◌then◌else◌, length, ℕ, Bool, not, ◌||◌, Option, none, some, List, [], ◌∷◌, ◌++◌,
}
use cloud_run_tcpdump.Text.{Text, codes}
use cloud_run_tcpdump.PcapFsn.Log.{Source, Level, info, error, exported, Entry, log_fs_event}
use cloud_run_tcpdump.PcapFsn.Move.{Bytes, Fs, Faults, Target, target_of, copied, is_none}

-- The texts of the errors of the operating system.
pub record Errors : Type 0 where
  pub open_error : Text
  pub create_error : Text
  pub copy_error : Text
  pub remove_error : Text

module _ (log : Source) (errors : Errors) (T : Target) where
  -- An entry about a move.
  abbrev pub line : Level → Text → Text → Text → ℕ → Option Text → Entry
  line level message src target bytes err =
      log_fs_event log level message exported src target bytes err

  unfoldable pub remove_lines : Faults → Text → Text → ℕ → List Entry
  remove_lines faults src target bytes =
      if faults.remove_fails
      then line error (codes "failed to DELETE file: " ++ src) src target bytes
          (some errors.remove_error)
        ∷ []
      else line info (codes "DELETED: " ++ src) src target bytes none ∷ []

  unfoldable pub copy_lines : Faults → Text → Text → Bool → Bytes → List Entry
  copy_lines faults src target delete content =
      let bytes = length (copied faults.copy_breaks content) in
      if is_none faults.copy_breaks
      then line info (codes "COPIED: " ++ src) src target bytes none
        ∷ (if delete then remove_lines faults src target bytes else [])
      else line error (codes "failed to COPY file: " ++ src) src target 0 (some errors.copy_error)
        ∷ []

  unfoldable pub create_lines : Faults → Text → Text → Bool → Bytes → Fs → List Entry
  create_lines faults src target delete content fs =
      if faults.create_fails || not (is_none (fs.file target))
      then line error (codes "failed to CREATE file: " ++ target) src target 0
          (some errors.create_error)
        ∷ []
      else copy_lines faults src target delete content

  unfoldable pub open_failed_lines : Text → Text → List Entry
  open_failed_lines src target =
      line error (codes "failed to OPEN file " ++ src) src target 0 (some errors.open_error) ∷ []

  unfoldable pub open_lines : Faults → Text → Text → Bool → Option Bytes → Fs → List Entry
  open_lines faults src target delete none fs = open_failed_lines src target
  open_lines faults src target delete (some content) fs =
      if faults.open_fails
      then open_failed_lines src target
      else create_lines faults src target delete content fs

  unfoldable pub move_lines : Faults → Text → Text → Bool → Bool → Fs → List Entry
  move_lines faults src dst_dir compress delete fs =
      open_lines faults src (target_of T src dst_dir compress) delete (fs.file src) fs
