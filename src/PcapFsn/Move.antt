-- ===== src/PcapFsn/Move.antt =====
-- `movePcapToGcs` in pcap-fsnotify/main.go, over a file system that may fail at each call.
pub mod Laws
pub mod Lines
pub mod Replay
pub mod Steps
use cloud_run_tcpdump.Prelude.{
  if◌then◌else◌, length, ℕ, zero, suc, ◌+◌, ◌-◌, Bool, true, false, not, ◌&&◌, ◌||◌, Option, none,
  some, List, [], ◌∷◌, ◌++◌,
}
use cloud_run_tcpdump.Text.{Text, codes, text_eq}

abbrev pub Bytes : Type 0
Bytes = List ℕ

-- The contents of the files, and the number of files that this process holds open.
pub record Fs : Type 0 where
  pub file : Text → Option Bytes
  pub handles : ℕ

abbrev pub put : Text → Option Bytes → (Text → Option Bytes) → Text → Option Bytes
put path content file p = if text_eq path p then content else file p

-- What the operating system does beyond the contents of the files: which calls fail, after how many
-- bytes a copy breaks off, and after how many bytes the destination ends where the closing of it, or of
-- its compression, fails (`none`: it does not).
pub record Faults : Type 0 where
  pub open_fails : Bool
  pub create_fails : Bool
  pub copy_breaks : Option ℕ
  pub close_cuts : Option ℕ
  pub remove_fails : Bool

-- Go's `path/filepath`, `compress/gzip` and the destination directory `gcs_dir`.
pub record Target : Type 0 where
  pub base : Text → Text
  pub join_path : Text → Text → Text
  pub gzip : Bytes → Bytes

pub data Failure : Type 0 where
  open_failed create_failed copy_failed : Failure

-- The target's name, the bytes copied, and the error.
pub record Moved : Type 0 where
  pub target : Text
  pub bytes : ℕ
  pub error : Option Failure

abbrev pub take : ℕ → Bytes → Bytes
take zero bs = []
take (suc n) [] = []
take (suc n) (b ∷ bs) = b ∷ take n bs

-- The bytes that are left where the copy, or the closing, fails.
abbrev pub copied : Option ℕ → Bytes → Bytes
copied none content = content
copied (some n) content = take n content

abbrev pub is_none {ℓ} : {A : Type ℓ} → Option A → Bool
is_none none = true
is_none (some a) = false

module _ (T : Target) where
  -- The name of the destination file.
  unfoldable pub target_of : Text → Text → Bool → Text
  target_of src dst_dir compress =
      let path = T.join_path dst_dir (T.base src) in if compress then path ++ codes ".gz" else path

  abbrev pub encode : Bool → Bytes → Bytes
  encode compress bytes = if compress then T.gzip bytes else bytes

  -- From the copy on: both files are open, and both are closed behind it. The errors of the calls that
  -- close the compression and the files are dropped.
  unfoldable pub copy_file : Faults → Text → Text → Bool → Bool → Bytes → Fs → Fs × Moved
  copy_file faults src target compress delete content fs =
      let bytes = copied faults.copy_breaks content in
      let written = put target (some (copied faults.close_cuts (encode compress bytes))) fs.file in
      let closed = fs.handles - 2 in
      if is_none faults.copy_breaks
      then (
        record {
          file = if delete && not faults.remove_fails then put src none written else written;
          handles = closed;
        },
        record { target = target; bytes = length bytes; error = none },
      )
      else (
        record { file = written; handles = closed },
        record { target = target; bytes = length bytes; error = some copy_failed },
      )

  -- From the creation of the destination on, with the source open: `O_EXCL` refuses a file that is
  -- there.
  unfoldable pub create_file : Faults → Text → Text → Bool → Bool → Bytes → Fs → Fs × Moved
  create_file faults src target compress delete content fs =
      if faults.create_fails || not (is_none (fs.file target))
      then (fs, record { target = target; bytes = 0; error = some create_failed })
      else copy_file faults src target compress delete content
          (record fs { handles = fs.handles + 1 })

  -- The opening of the source.
  unfoldable pub open_file : Faults → Text → Text → Bool → Bool → Option Bytes → Fs → Fs × Moved
  open_file faults src target compress delete none fs =
      (fs, record { target = target; bytes = 0; error = some open_failed })
  open_file faults src target compress delete (some content) fs =
      if faults.open_fails
      then (fs, record { target = target; bytes = 0; error = some open_failed })
      else create_file faults src target compress delete content
          (record fs { handles = fs.handles + 1 })

  unfoldable pub move_pcap_to_gcs : Faults → Text → Text → Bool → Bool → Fs → Fs × Moved
  move_pcap_to_gcs faults src dst_dir compress delete fs =
      open_file faults src (target_of src dst_dir compress) compress delete (fs.file src) fs
