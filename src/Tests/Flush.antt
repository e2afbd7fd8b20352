-- ===== src/Tests/Flush.antt =====
-- The last flush, the memory buffers and the mask of flags at concrete inputs.
use cloud_run_tcpdump.PcapFsn.Move.{target_of}
use cloud_run_tcpdump.PcapFsn.FileName.{
  find_submatch, strip_prefix, read_index, read_iface, read_tail, strip_shape,
}
use cloud_run_tcpdump.Prelude.{
  if◌then◌else◌, ◌==◌, all, ℕ, ◌<◌, ◌≡◌, refl, true, false, none, some, List, [], ◌∷◌, ◌++◌, arith,
}
use cloud_run_tcpdump.Text.{
  Text, codes, text_eq, contains, to_lower, to_upper, equal_fold, split, join, lower, upper, push,
  is_digit,
}
use cloud_run_tcpdump.Ext.{distinct}
use cloud_run_tcpdump.Filter.Compat.{is_any, is_unset, only_blank}
use Prim.Native.Nat.{bit_and}
use cloud_run_tcpdump.Ext.Models.{
  formatter, formatter-IsPositional, mapset, mapset-IsMapset, dedup, erase, substitute,
}
use cloud_run_tcpdump.PcapFsn.Export.{State}
use cloud_run_tcpdump.PcapFsn.FlushDir.{
  Entry, flush_all, flush_src_dir, flush_pending, walk, walk_on, add_visit, visit, visit_info,
}
use cloud_run_tcpdump.PcapFsn.FlushDir.Walk.{flush_src_dir-flushes, flushes}
use cloud_run_tcpdump.PcapFsn.FlushDir.Complete.{flush_all_complete, target}
use cloud_run_tcpdump.PcapFsn.FlushDir.Kept.{Kept, run-flush_all-Kept}
use cloud_run_tcpdump.PcapFsn.Export.Run.{run}
use cloud_run_tcpdump.PcapFsn.Move.{Faults}
use cloud_run_tcpdump.PcapFsn.Memory.{
  Kernel, number, utilization_path, read_scanned, read_opened, get_current_memory_utilization,
  flush_buffers, tick, ticks,
}
use cloud_run_tcpdump.Filter.TcpFlags as TcpFlags
use cloud_run_tcpdump.Filter.TcpFlags.Meaning.{misses, get-misses, hex_value}
use cloud_run_tcpdump.Filter.TcpFlags.Written.{parts}
use cloud_run_tcpdump.Tests.Data as Data
use cloud_run_tcpdump.Tests.Data.{
  haxmap, no_faults, config, first_file, second_file, fs, state, pcap, flag_bits,
}

abbrev stopped : State haxmap
stopped = record state { is_active = false }

abbrev entries : List Entry
entries =
    record { path = codes "/tmp"; is_dir = some true; failed = false }
    ∷ record { path = first_file; is_dir = some false; failed = false }
    ∷ record { path = second_file; is_dir = some false; failed = true }
    ∷ []

flush_src_dir-flushes_example :
    flush_src_dir haxmap Data.target config (λ p. no_faults) (λ e. true) entries stopped
    ≡ some (flushes haxmap Data.target config (λ p. no_faults) (first_file ∷ []) stopped)
flush_src_dir-flushes_example =
    flush_src_dir-flushes haxmap Data.target config (λ p. no_faults) (λ e. true) entries stopped

-- The directory is not there: the walk has an error and no file information.
flush_panics :
    flush_src_dir haxmap Data.target config
      (λ p. no_faults)
      (λ e. true)
      (record { path = codes "/tmp"; is_dir = none; failed = true } ∷ [])
      stopped
    ≡ none
unfolding flush_src_dir flush_pending walk walk_on add_visit visit visit_info
flush_panics = refl

flush_all_complete_example :
    ((p : Text)
      → contains (first_file ∷ second_file ∷ []) p ≡ true
      → (flush_all haxmap Data.target config
            (λ p. no_faults)
            (first_file ∷ second_file ∷ [])
            stopped).0.fs.file
          (target haxmap Data.target config (λ p. no_faults) (λ p. refl) p)
        ≡ fs.file p)
    × (all
          (λ b. b)
          (flush_all haxmap Data.target config
            (λ p. no_faults)
            (first_file ∷ second_file ∷ [])
            stopped).1
        ≡ true)
unfolding find_submatch strip_prefix read_index is_digit read_iface read_tail strip_shape contains
    text_eq target_of distinct split push
flush_all_complete_example =
    flush_all_complete haxmap Data.target config (λ p. no_faults) (λ p. refl)
      (first_file ∷ second_file ∷ []) stopped refl refl refl

-- The copy of the second file breaks off in the last flush.
abbrev breaking : Text → Faults
breaking p = if text_eq p second_file then record no_faults { copy_breaks = some 1 } else no_faults

abbrev rotated : State haxmap
rotated = (run haxmap Data.target config true true Data.events state).0

run-flush_all-Kept_example :
    Kept Data.target config true true first_file
      (1 ∷ 2 ∷ 3 ∷ [])
      (flush_all haxmap Data.target config breaking
        (first_file ∷ second_file ∷ [])
        (record rotated { is_active = false })).0.fs
unfolding text_eq target_of split push
run-flush_all-Kept_example =
    run-flush_all-Kept haxmap Data.haxmap-IsHaxmap Data.target config true true Data.events state
      breaking (first_file ∷ second_file ∷ []) first_file (1 ∷ 2 ∷ 3 ∷ [])
      (record { counted = λ k. refl; waiting = λ k. refl; named = refl }) (omega arith) refl refl

abbrev kernel : Kernel
kernel = record {
  open_before = λ p. some (number 100);
  open_after = λ p. some (number 40);
  open_drop_caches = true;
  write_fails = false;
}

-- Two ticks report what was released, and leave four files open.
ticks_run : ticks true (kernel ∷ kernel ∷ []) 3 ≡ (some 60 ∷ some 60 ∷ [], 7)
unfolding utilization_path read_scanned read_opened get_current_memory_utilization flush_buffers
    tick ticks
ticks_run = refl

flags_fit : (t : Text) → flag_bits t < 256
flags_fit t = ground arith

abbrev syn_or_ack : Text
syn_or_ack = codes "(tcp[tcpflags]&(tcp-syn|tcp-ack)!=0) or (ip6[13+40]&0x12!=0)"

syn_or_ack_run : (TcpFlags.get formatter mapset pcap (codes "syn,ack") []).0 ≡ some syn_or_ack
unfolding is_unset is_any only_blank contains text_eq equal_fold to_lower lower split push join
    dedup erase substitute upper to_upper TcpFlags.get TcpFlags.each TcpFlags.visit TcpFlags.write
    TcpFlags.hex_digit TcpFlags.format_hex
syn_or_ack_run = refl

get-misses_example :
    (ipv4 : Text) × (hex : Text) × (syn_or_ack
      ≡ ipv4 ++ (codes " or (ip6[13+40]&0x" ++ (hex ++ codes "!=0)")))
    × ((segment : ℕ)
        → (bit_and segment (hex_value 0 hex) == 0)
          ≡ all (misses pcap segment) (parts (codes "syn,ack")))
get-misses_example =
    get-misses formatter formatter-IsPositional mapset mapset-IsMapset pcap flags_fit
      (codes "syn,ack") [] syn_or_ack syn_or_ack_run
