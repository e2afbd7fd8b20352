-- ===== src/PcapFsn/Move/Laws.antt =====
-- What a move does to the files, on every branch.
use cloud_run_tcpdump.Prelude.{
  if◌then◌else◌, Option-cases, length, ◌+◌, ◌≡◌, sym, ap, ◌∙◌, ◌≢◌, ◌⊎◌, inl, inr, Bool, false, not,
  ◌&&◌, none, some, arith,
}
use cloud_run_tcpdump.Text.{Text, text_eq}
use cloud_run_tcpdump.Text.Laws.{text_eq_refl, text_eq_iff}
use cloud_run_tcpdump.PcapFsn.Move.{
  Bytes, Fs, Faults, Target, create_failed, Moved, target_of, encode, copy_file, create_file,
  open_file, move_pcap_to_gcs, copy_failed, copied,
}

module _ (T : Target) (faults : Faults) (src dst_dir : Text) (compress delete : Bool)
    (fs : Fs) where
  abbrev target : Text
  target = target_of T src dst_dir compress

  abbrev outcome : Fs × Moved
  outcome = move_pcap_to_gcs T faults src dst_dir compress delete fs

  -- A move that reports no error found the source and found no target. The target then holds the
  -- whole source, compressed if asked for, but for what is cut off where closing it failed, which is not
  -- noticed; and the size of the source is reported. The source is gone if its removal was asked for and
  -- did not fail. No other file is changed.
  pub move-success :
      outcome.1.error ≡ none
      → (content : Bytes) × (fs.file src ≡ some content)
        × (fs.file target ≡ none)
        × (outcome.1.bytes ≡ length content)
        × ((p : Text)
            → outcome.0.file p ≡ (
                if text_eq target p
                then some (copied faults.close_cuts (encode T compress content))
                else if delete && not faults.remove_fails && text_eq src p
                then none
                else fs.file p))
  unfolding move_pcap_to_gcs open_file create_file copy_file
  move-success h = elim (Option-cases (fs.file src)) [
    | inl e ↦ absurd (ground arith)
    | inr (content, e) ↦ (
      content,
      e,
      ground arith,
      ground arith,
      λ p. ground (arith, text_eq_iff target p, text_eq_iff src p),
    )
  ]

  -- Where the target can be closed, it holds the whole source.
  pub move-whole :
      (content : Bytes)
      → outcome.1.error ≡ none
      → faults.close_cuts ≡ none
      → fs.file src ≡ some content
      → outcome.0.file target ≡ some (encode T compress content)
  move-whole content h shut held =
      let (c, found, absent, size, files) = move-success h in
      let whole : c ≡ content = cc (sym found ∙ held) in
      files target
      ∙ rw (text_eq_refl target) (ap (λ k. some (copied k (encode T compress c))) shut)
      ∙ ap (λ b. some (encode T compress b)) whole

  -- A move that fails leaves every file that was there as it was, the source too: at most it
  -- creates the target.
  pub move-failure :
      (p : Text)
      → outcome.1.error ≢ none
      → (fs.file p ≢ none) ⊎ (text_eq target p ≡ false)
      → outcome.0.file p ≡ fs.file p
  unfolding move_pcap_to_gcs open_file create_file copy_file
  move-failure p h k = ground (arith, text_eq_iff target p)

  -- A move closes what it opens, but for one case: if the target cannot be created, the source
  -- stays open.
  pub move-handles :
      outcome.0.handles ≡ fs.handles + (elim outcome.1.error [ some create_failed ↦ 1 | _ ↦ 0 ])
  unfolding move_pcap_to_gcs open_file create_file copy_file
  move-handles = ground arith

  -- A move that fails leaves every file that was there, or is not the target, as it was; and it closes
  -- what it opens, but for the source when the target cannot be created.
  pub move-fails :
      outcome.1.error ≢ none
      → ((p : Text)
          → (fs.file p ≢ none) ⊎ (text_eq target p ≡ false)
          → outcome.0.file p ≡ fs.file p)
        × (outcome.0.handles
            ≡ fs.handles + (elim outcome.1.error [ some create_failed ↦ 1 | _ ↦ 0 ]))
  move-fails h = ((λ p k. move-failure p h k), move-handles)

  target_left :
      outcome.1.error ≡ some copy_failed → (part : Bytes) × (outcome.0.file target ≡ some part)
  unfolding move_pcap_to_gcs open_file create_file copy_file
  target_left h = elim (Option-cases (fs.file src)) [
    | inl e ↦ absurd (ground arith)
    | inr (content, e) ↦ (
      copied faults.close_cuts (encode T compress (copied faults.copy_breaks content)),
      ground (arith, text_eq_refl target),
    )
  ]

-- Behind a copy that broke off, the same move never succeeds, whatever works from then on: the
-- part that was written stays at the target, and a target that exists is refused.
pub move_again :
    (T : Target) (faults faults' : Faults) (src dst_dir : Text) (compress delete : Bool) (fs : Fs)
    → let broken = move_pcap_to_gcs T faults src dst_dir compress delete fs in
      broken.1.error ≡ some copy_failed
      → (move_pcap_to_gcs T faults' src dst_dir compress delete broken.0).1.error ≢ none
move_again T faults faults' src dst_dir compress delete fs h e =
    let broken = move_pcap_to_gcs T faults src dst_dir compress delete fs in
    let (part, left) = target_left T faults src dst_dir compress delete fs h in
    let (content, found, absent, size, files) =
      move-success T faults' src dst_dir compress delete broken.0 e in
    cc (left, absent)
