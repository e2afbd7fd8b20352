-- ===== src/Tests/Files.antt =====
-- The watcher of PCAP files at concrete inputs.
use cloud_run_tcpdump.Prelude.{
  if◌then◌else◌, length, ◌≡◌, refl, ◌≢◌, ◌⊎◌, true, false, none, some, [], ◌∷◌, arith,
}
use cloud_run_tcpdump.Text.{Text, codes, text_eq, contains, split, join, push}
use cloud_run_tcpdump.PcapFsn.Export.{export_pcap_file}
use cloud_run_tcpdump.PcapFsn.Export.History.{Tracks}
use cloud_run_tcpdump.PcapFsn.Export.Run.{run, rotation, run-rotation}
use cloud_run_tcpdump.PcapFsn.Move.{
  Faults, move_pcap_to_gcs, copy_failed, create_failed, open_file, create_file, target_of,
  copy_file, Bytes,
}
use cloud_run_tcpdump.PcapFsn.Move.Laws.{move-success, move-fails, move_again}
use cloud_run_tcpdump.Text.{is_digit}
use cloud_run_tcpdump.PcapFsn.FileName.{find_submatch, strip_shape}
use cloud_run_tcpdump.PcapFsn.FileName.Written.{file_name}
use cloud_run_tcpdump.Tests.Data.{
  haxmap, haxmap-IsHaxmap, target, no_faults, config, first_file, fs, state, events,
}

run_example : (run haxmap target config false true events state).1 ≡ false ∷ true ∷ []
unfolding run cloud_run_tcpdump.PcapFsn.Export.export_pcap_file
    cloud_run_tcpdump.PcapFsn.Export.export_match cloud_run_tcpdump.PcapFsn.FileName.find_submatch
    cloud_run_tcpdump.PcapFsn.FileName.strip_prefix cloud_run_tcpdump.PcapFsn.FileName.read_index
    cloud_run_tcpdump.Text.is_digit cloud_run_tcpdump.PcapFsn.FileName.read_iface
    cloud_run_tcpdump.PcapFsn.FileName.read_tail cloud_run_tcpdump.PcapFsn.FileName.strip_shape
    contains text_eq cloud_run_tcpdump.PcapFsn.Export.detect_file
    cloud_run_tcpdump.PcapFsn.FileName.key_of join cloud_run_tcpdump.PcapFsn.Export.rotate_loaded
    cloud_run_tcpdump.PcapFsn.Export.rotate move_pcap_to_gcs
    cloud_run_tcpdump.PcapFsn.Move.copy_file cloud_run_tcpdump.PcapFsn.Move.create_file
    cloud_run_tcpdump.PcapFsn.Move.open_file target_of
run_example = refl

state-Tracks : Tracks haxmap [] state
state-Tracks = record { counted = λ k. refl; waiting = λ k. refl; named = refl }

run-rotation_example :
    ((run haxmap target config false true events state).0.fs
      ≡ (rotation target config false true events [] fs).0)
    × ((run haxmap target config false true events state).1
        ≡ (rotation target config false true events [] fs).1)
run-rotation_example =
    run-rotation haxmap haxmap-IsHaxmap target config false true events state [] state-Tracks
      (omega arith)

abbrev broken : Faults
broken = record no_faults { copy_breaks = some 2 }

abbrev moved_file : Text
moved_file = codes "/gcs/part__1_eth0__20240102T030405.pcap.gz"

move_works :
    (move_pcap_to_gcs target no_faults first_file (codes "/gcs") true true fs).1.error ≡ none
unfolding move_pcap_to_gcs open_file text_eq create_file target_of copy_file
move_works = refl

move_breaks :
    (move_pcap_to_gcs target broken first_file (codes "/gcs") true true fs).1.error
    ≡ some copy_failed
unfolding move_pcap_to_gcs open_file text_eq create_file target_of copy_file
move_breaks = refl

move-success_example :
    (content : Bytes) × (fs.file first_file ≡ some content)
    × (fs.file moved_file ≡ none)
    × ((move_pcap_to_gcs target no_faults first_file (codes "/gcs") true true fs).1.bytes
        ≡ length content)
    × ((p : Text)
        → (move_pcap_to_gcs target no_faults first_file (codes "/gcs") true true fs).0.file p ≡ (
            if text_eq moved_file p
            then some (31 ∷ content)
            else if text_eq first_file p
            then none
            else fs.file p))
unfolding target_of split push
move-success_example =
    move-success target no_faults first_file (codes "/gcs") true true fs move_works

abbrev refusing : Faults
refusing = record no_faults { create_fails = true }

move_refused :
    (move_pcap_to_gcs target refusing first_file (codes "/gcs") true true fs).1.error
    ≡ some create_failed
unfolding move_pcap_to_gcs open_file text_eq create_file
move_refused = refl

-- The source stays open.
move-fails_example :
    ((p : Text)
      → (fs.file p ≢ none) ⊎ (text_eq moved_file p ≡ false)
      → (move_pcap_to_gcs target refusing first_file (codes "/gcs") true true fs).0.file p
        ≡ fs.file p)
    × ((move_pcap_to_gcs target refusing first_file (codes "/gcs") true true fs).0.handles ≡ 3)
unfolding move_pcap_to_gcs open_file text_eq create_file target_of split push
move-fails_example =
    move-fails target refusing first_file (codes "/gcs") true true fs
      (λ e. ground (arith, e, move_refused))

move_again_example :
    (move_pcap_to_gcs target no_faults first_file
      (codes "/gcs")
      true
      true
      (move_pcap_to_gcs target broken first_file (codes "/gcs") true true fs).0).1.error
    ≢ none
move_again_example =
    move_again target broken no_faults first_file (codes "/gcs") true true fs move_breaks

abbrev date : Text
date = codes "20240102T030405"

name_run : file_name (codes "/tmp") (codes "1") (codes "eth0") date (codes "pcap") ≡ first_file
unfolding file_name
name_run = refl
