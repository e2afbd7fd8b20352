-- ===== src/Tests/Data.antt =====
-- The concrete outside parts and inputs that the tests use.
use cloud_run_tcpdump.Prelude.{
  ◌==◌, if◌then◌else◌, any, ℕ, ◌+◌, ◌%◌, ◌^◌, refl, Bool, true, false, not, ◌&&◌, ◌||◌, Option,
  none, some, List, [], ◌∷◌, ◌++◌, arith,
}
use cloud_run_tcpdump.Text.{Text, codes, text_eq, split}
use cloud_run_tcpdump.Ext.{Pcap, IsPcap, Netip}
use cloud_run_tcpdump.PcapFsn.Export.{Haxmap, IsHaxmap, holds, Config, State}
use cloud_run_tcpdump.PcapFsn.Move.{Fs, Faults, Target}
use cloud_run_tcpdump.PcapFsn.Export.Run.{Event}

-- A packet capture library with five flags of the TCP header.
abbrev pub flag_bits : Text → ℕ
flag_bits t =
    if text_eq t (codes "FIN")
    then 1
    else if text_eq t (codes "SYN")
    then 2
    else if text_eq t (codes "RST")
    then 4
    else if text_eq t (codes "PSH")
    then 8
    else if text_eq t (codes "ACK")
    then 16
    else 0

abbrev pub pcap : Pcap
pcap = record {
  default_filter = codes "(tcp or udp)";
  min_ephemeral_port = 32768;
  max_ephemeral_port = 61000;
  tcp_flag_to_uint8 = flag_bits;
}

pub pcap-IsPcap : IsPcap pcap
pcap-IsPcap = record { min_ephemeral_port-lt = omega arith; max_ephemeral_port-lt = omega arith }

-- Addresses as texts with a dot or a colon, networks as texts with a slash; a network contains the
-- addresses with the same first part.
abbrev pub has_char : ℕ → Text → Bool
has_char c t = any (λ d. d == c) t

abbrev pub head_of : List Text → Text
head_of [] = []
head_of (t ∷ ts) = t

abbrev pub some_if : Bool → Text → Option Text
some_if b t = if b then some t else none

abbrev pub netip : Netip
netip = record {
  Addr = Text;
  Prefix = Text;
  parse_addr = λ t. some_if (not (has_char b'/' t) && (has_char b'.' t || has_char b':' t)) t;
  addr_string = λ a. a;
  is4 = has_char b'.';
  is6 = has_char b':';
  parse_prefix = λ t. some_if (has_char b'/' t) t;
  prefix_string = λ p. p;
  is_valid = λ p. true;
  prefix_addr = λ p. head_of (split p b'/');
  has_addr = λ p a. text_eq (head_of (split p b'.')) (head_of (split a b'.'));
  lookup_host =
      λ h. if text_eq h (codes "db") then some (codes "10.0.0.7" ∷ codes "fd::7" ∷ []) else none;
}

-- Maps as functions.
abbrev pub haxmap : Haxmap
haxmap = record {
  Files = Text → Option Text;
  get = λ k m. m k;
  set = λ k v m j. if text_eq k j then some v else m j;
  compare_and_swap = λ k old v m.
      if holds (m k) old then ((λ j. if text_eq k j then some v else m j), true) else (m, false);
  Counters = Text → ℕ;
  count = λ k c. c k;
  increment = λ k c. ((λ j. if text_eq k j then (c j + 1) % 2 ^ 64 else c j), (c k + 1) % 2 ^ 64);
}

pub haxmap-IsHaxmap : IsHaxmap haxmap
haxmap-IsHaxmap = record {
  get-set = λ k v m j. refl;
  compare_and_swap_lem = λ k old v m. refl;
  count-increment = λ k c j. refl;
  increment_value = λ k c. refl;
}

-- `filepath.Base` and `filepath.Join` for clean paths, and a compression that puts a byte in front.
abbrev pub last_of : Text → List Text → Text
last_of t [] = t
last_of t (u ∷ us) = last_of u us

abbrev pub target : Target
target = record {
  base = λ t. last_of [] (split t b'/');
  join_path = λ dir t. dir ++ (codes "/" ++ t);
  gzip = λ bs. 31 ∷ bs;
}

abbrev pub no_faults : Faults
no_faults = record {
  open_fails = false;
  create_fails = false;
  copy_breaks = none;
  close_cuts = none;
  remove_fails = false;
}

abbrev pub config : Config
config = record { src_dir = codes "/tmp"; gcs_dir = codes "/gcs"; exts = codes "pcap" ∷ [] }

abbrev pub first_file : Text
first_file = codes "/tmp/part__1_eth0__20240102T030405.pcap"

abbrev pub second_file : Text
second_file = codes "/tmp/part__1_eth0__20240102T030505.pcap"

abbrev pub fs : Fs
fs = record {
  file = λ p.
      if text_eq p first_file
      then some (1 ∷ 2 ∷ 3 ∷ [])
      else if text_eq p second_file
      then some (4 ∷ [])
      else none;
  handles = 2;
}

abbrev pub state : State haxmap
state = record { counters = λ k. 0; last_pcap = λ k. none; is_active = true; fs = fs }

abbrev pub events : List Event
events =
    record { name = first_file; faults = no_faults }
    ∷ record { name = second_file; faults = no_faults }
    ∷ []
