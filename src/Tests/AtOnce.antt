-- ===== src/Tests/AtOnce.antt =====
-- The flushing calls at once, at concrete inputs.
use cloud_run_tcpdump.Prelude.{if◌then◌else◌, ◌≡◌, refl, all, map, true, false, List, [], ◌∷◌}
use cloud_run_tcpdump.Text.{Text, text_eq, contains, split, push}
use cloud_run_tcpdump.PcapFsn.Move.{target_of, Faults}
use cloud_run_tcpdump.PcapFsn.Export.{State}
use cloud_run_tcpdump.PcapFsn.FlushDir.{flush_all}
use cloud_run_tcpdump.PcapFsn.FlushDir.AtOnce.{Calls, returned, run_at_once, start_calls}
use cloud_run_tcpdump.PcapFsn.FlushDir.AtOnce.Whole.{has_ended}
use cloud_run_tcpdump.PcapFsn.FlushDir.AtOnce.Equal.{run_at_once-flush_all}
use cloud_run_tcpdump.Tests.Data.{haxmap, target, no_faults, config, first_file, second_file, state}

abbrev stopped : State haxmap
stopped = record state { is_active = false }

-- The second file cannot be created in the bucket.
abbrev refusing : Text → Faults
refusing p = if text_eq p second_file then record no_faults { create_fails = true } else no_faults

-- The calls for two files, turn by turn.
abbrev files : List Text
files = first_file ∷ second_file ∷ []

abbrev turn_by_turn : List Text
turn_by_turn =
    second_file ∷ first_file ∷ first_file ∷ second_file ∷ second_file ∷ first_file ∷ second_file
    ∷ first_file ∷ first_file ∷ first_file ∷ second_file ∷ second_file ∷ []

abbrev after : Calls
after =
    run_at_once target config refusing false turn_by_turn
      (start_calls target config refusing false stopped.fs)

run_at_once-flush_all_example :
    ((q : Text)
      → after.fs.file q ≡ (flush_all haxmap target config refusing files stopped).0.fs.file q)
    × (map (λ p. returned (after.thread p)) files
        ≡ (flush_all haxmap target config refusing files stopped).1)
    × (all (λ p. has_ended (after.thread p)) files ≡ true)
unfolding target_of contains text_eq split push
run_at_once-flush_all_example =
    run_at_once-flush_all haxmap target config refusing stopped files turn_by_turn refl refl refl
