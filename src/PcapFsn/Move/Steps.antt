-- ===== src/PcapFsn/Move/Steps.antt =====
-- `movePcapToGcs` in pcap-fsnotify/main.go as the steps between which other threads may run: each is
-- one call to the file system, or the copy. An open file keeps the content that it had when it was
-- opened.
use cloud_run_tcpdump.Prelude.{
  if◌then◌else◌, Bool-cases, length, ℕ, zero, suc, ◌+◌, ◌-◌, ◌≡◌, refl, inl, inr, Bool, true, false,
  not, ◌&&◌, ◌||◌, Option, none, some, [], arith,
}
use cloud_run_tcpdump.Text.{Text}
use cloud_run_tcpdump.PcapFsn.Move.{
  Bytes, Fs, put, Faults, Target, Failure, open_failed, create_failed, copy_failed, Moved, copied,
  is_none, target_of, encode, copy_file, create_file, open_file, move_pcap_to_gcs,
}

-- Before the source is opened; before the destination is created, with the content of the source;
-- before the copy; before both files are closed, with what was copied; before the removal; and behind
-- the return.
pub data Pc : Type 0 where
  opening : Pc
  creating : Bytes → Pc
  copying : Bytes → Pc
  closing : Bytes → Pc
  deleting : ℕ → Pc
  finished : Moved → Pc

module _ (T : Target) (faults : Faults) (src target : Text) (compress delete : Bool) where
  abbrev pub failing : Failure → ℕ → Pc
  failing error bytes = finished (record { target = target; bytes = bytes; error = some error })

  unfoldable pub open_step : Option Bytes → Fs → Pc × Fs
  open_step none fs = (failing open_failed 0, fs)
  open_step (some content) fs =
      if faults.open_fails
      then (failing open_failed 0, fs)
      else (creating content, record fs { handles = fs.handles + 1 })

  unfoldable pub create_step : Bytes → Fs → Pc × Fs
  create_step content fs =
      if faults.create_fails || not (is_none (fs.file target))
      then (failing create_failed 0, fs)
      else (
        copying content,
        record { file = put target (some []) fs.file; handles = fs.handles + 1 },
      )

  unfoldable pub copy_step : Bytes → Fs → Pc × Fs
  copy_step content fs =
      let bytes = copied faults.copy_breaks content in
      (closing bytes, record fs { file = put target (some (encode T compress bytes)) fs.file })

  unfoldable pub close_step : Bytes → Fs → Pc × Fs
  close_step bytes fs = (
    if is_none faults.copy_breaks
        then deleting (length bytes)
        else failing copy_failed (length bytes),
    record {
      file = put target (some (copied faults.close_cuts (encode T compress bytes))) fs.file;
      handles = fs.handles - 2;
    },
  )

  unfoldable pub delete_step : ℕ → Fs → Pc × Fs
  delete_step bytes fs = (
    finished (record { target = target; bytes = bytes; error = none }),
    record fs {
      file = if delete && not faults.remove_fails then put src none fs.file else fs.file;
    },
  )

  unfoldable pub step : Pc → Fs → Pc × Fs
  step opening fs = open_step (fs.file src) fs
  step (creating content) fs = create_step content fs
  step (copying content) fs = copy_step content fs
  step (closing bytes) fs = close_step bytes fs
  step (deleting bytes) fs = delete_step bytes fs
  step (finished moved) fs = (finished moved, fs)

  -- A number of steps with no other thread in between.
  unfoldable pub steps : ℕ → Pc × Fs → Pc × Fs
  steps zero x = x
  steps (suc k) (pc, fs) = steps k (step pc fs)

module _ (T : Target) (faults : Faults) (src dst_dir : Text) (compress delete : Bool)
    (fs : Fs) where
  abbrev target : Text
  target = target_of T src dst_dir compress

  -- The result of a move whose steps are behind it, and the files, are those of another.
  abbrev pub Same : Pc × Fs → Fs × Moved → Type 0
  Same (pc, after) (out, moved) =
      (pc ≡ finished moved)
      × (after.handles ≡ out.handles)
      × ((p : Text) → after.file p ≡ out.file p)

  steps-copy :
      (content : Bytes) (here : Fs)
      → Same
          (steps T faults src target compress delete 3
            (copying content, record here { file = put target (some []) here.file }))
          (copy_file T faults src target compress delete content here)
  unfolding steps step copy_step close_step delete_step copy_file
  steps-copy content here = elim (Bool-cases (is_none faults.copy_breaks)) [
    | inl e ↦ ground arith
    | inr e ↦ ground arith
  ]

  Same-if :
      (b : Bool) (k : ℕ) (x y : Pc × Fs) (out out' : Fs × Moved)
      → Same (steps T faults src target compress delete k x) out
      → Same (steps T faults src target compress delete k y) out'
      → Same
          (steps T faults src target compress delete k (if b then x else y))
          (if b then out else out')
  Same-if true k x y out out' h h' = h
  Same-if false k x y out out' h h' = h'

  steps-create :
      (content : Bytes) (here : Fs)
      → Same
          (steps T faults src target compress delete 4 (creating content, here))
          (create_file T faults src target compress delete content here)
  unfolding create_file steps step create_step
  steps-create content here =
      Same-if (faults.create_fails || not (is_none (here.file target))) 3 _ _ _ _
        (refl, refl, λ p. refl) (steps-copy content (record here { handles = here.handles + 1 }))

  steps-open :
      (o : Option Bytes)
      → Same
          (steps T faults src target compress delete 4
            (open_step T faults src target compress delete o fs))
          (open_file T faults src target compress delete o fs)
  unfolding open_file open_step steps step
  steps-open none = (refl, refl, λ p. refl)
  steps-open (some content) =
      Same-if faults.open_fails 4 _ _ _ _ (refl, refl, λ p. refl)
        (steps-create content (record fs { handles = fs.handles + 1 }))

  -- Five steps with no other thread in between are a move.
  pub steps-move :
      Same
        (steps T faults src target compress delete 5 (opening, fs))
        (move_pcap_to_gcs T faults src dst_dir compress delete fs)
  unfolding move_pcap_to_gcs steps step
  steps-move = steps-open (fs.file src)
