-- ===== src/Tests/Tasks.antt =====
-- The configuration of the capture and its start at concrete inputs.
use cloud_run_tcpdump.Text.Decimal.{decimal, digits}
use cloud_run_tcpdump.Prelude.{
  ◌==◌, if◌then◌else◌, all, any, map, ◌≡◌, refl, sym, Bool, true, false, not, none, some, List, [],
  ◌∷◌, ◌++◌, arith,
}
use cloud_run_tcpdump.Text.{
  Text, codes, text_eq, contains, to_lower, equal_fold, parsed, parse_uint, lower,
}
use cloud_run_tcpdump.Text.{is_digit}
use cloud_run_tcpdump.PcapFsn.FileName.{find_submatch, Match, strip_prefix, strip_shape}
use cloud_run_tcpdump.PcapFsn.FileName.Keys.{key_of_injective}
use cloud_run_tcpdump.Tcpdumpw.Tasks.{
  Engines, Task, TaskOptions, Device, create_tasks, find_devices, tcpdump_config, jsondump_config,
  date_directives, matches_device, is_numbered, is_numbered_from, chosen_iface, iface_and_index,
  is_gae, new_pcap_config, file_writer, run_file_output, parse_bool,
}
use cloud_run_tcpdump.Tcpdumpw.Tasks.Expected.{concat_map, create_tasks-tasks_of}
use cloud_run_tcpdump.Tcpdumpw.Tasks.Lines.{Errors, create_tasks_lines}
use cloud_run_tcpdump.Tcpdumpw.Tasks.Lines.Told.{told}
use cloud_run_tcpdump.Tcpdumpw.Tasks.Lines.Failed.{
  is_failure, device_misses, create_tasks_lines-tasks,
}
use cloud_run_tcpdump.Tcpdumpw.Tasks.Bounds.{IsSearch}
use cloud_run_tcpdump.Tcpdumpw.Tasks.Watched.{Naming, IsNaming, find_submatch-configs}
use cloud_run_tcpdump.Tcpdumpw.Main.{exit, main, Flags, task_options}
use cloud_run_tcpdump.Ext.Models.{formatter, mapset}
use cloud_run_tcpdump.Tests.Data.{pcap, netip}
use cloud_run_tcpdump.Tcpdumpw.Main.Codes.{main-code}

abbrev eth0 : Device
eth0 = record { index = 2; name = codes "eth0" }

abbrev select : (Text → Bool) → List Device → List Device
select test [] = []
select test (d ∷ ds) = let rest = select test ds in if test d.name then d ∷ rest else rest

-- A machine with two interfaces, on which every engine can be made but no writer to a file.
abbrev engines : Engines
engines = record {
  Engine = Text;
  Writer = Text;
  find_devices_by_regex =
      λ test. select test (eth0 ∷ record { index = 3; name = codes "wlan0" } ∷ []);
  new_tcpdump = λ c. some (c.format ++ c.iface);
  new_pcap = λ c. some (c.format ++ c.iface);
  new_pcap_writer = λ iface output ext timezone interval. none;
  new_stdout_pcap_writer = λ iface. some iface;
}

select-all :
    (test : Text → Bool) (ds : List Device) → all (λ d. test d.name) (select test ds) ≡ true
select-all test [] = refl
select-all test (d ∷ ds) = ground (arith, select-all test ds)

engines-IsSearch : IsSearch engines
engines-IsSearch = record {
  find_devices_by_regex-matches =
      λ test. select-all test (eth0 ∷ record { index = 3; name = codes "wlan0" } ∷ []);
}

abbrev eth_options : TaskOptions
eth_options = record {
  iface_env = [];
  gae_env = codes "maybe";
  iface_prefix = codes "eth";
  timezone = codes "UTC";
  directory = codes "/tmp";
  extension = codes "pcap";
  filter = codes "tcp";
  filters = [];
  compat_filters = [];
  snaplen = 0;
  interval = 60;
  compat = false;
  tcp_dump = true;
  json_dump = true;
  json_log = true;
  is_ordered = false;
  conntrack = false;
  gcp_gae = false;
  ephemerals = record { min = 32768; max = 65535 };
}

create_tasks-tasks_of_example :
    create_tasks engines eth_options
    ≡ record { engine = codes "pcapeth0"; writers = []; iface = codes "eth0" }
      ∷ record { engine = codes "jsoneth0"; writers = codes "2/eth0" ∷ []; iface = codes "eth0" }
      ∷ []
unfolding find_devices equal_fold text_eq to_lower chosen_iface lower matches_device
    is_numbered_from strip_prefix is_numbered is_digit tcpdump_config jsondump_config
    iface_and_index is_gae new_pcap_config decimal parse_bool digits contains
create_tasks-tasks_of_example = create_tasks-tasks_of engines eth_options

abbrev errors : Errors
errors = record {
  new_tcpdump = λ c. codes "no tcpdump";
  new_pcap = λ c. codes "no pcap";
  new_pcap_writer = λ iface output. codes "no writer";
  new_stdout_pcap_writer = λ iface. codes "no output";
}

-- Two tasks are told of, and the writer to a file failed.
create_tasks_lines-tasks_example :
    (concat_map told (create_tasks_lines engines errors eth_options)
      ≡ map (λ (t : Task engines). t.iface) (create_tasks engines eth_options))
    × (any (is_failure engines errors eth_options) (create_tasks_lines engines errors eth_options)
        ≡ any (device_misses engines errors eth_options) (find_devices engines eth_options))
create_tasks_lines-tasks_example = create_tasks_lines-tasks engines errors eth_options

abbrev flags : Flags
flags = record {
  filters = record {
    compat = false;
    filter = codes "tcp";
    l3_protos = [];
    l4_protos = [];
    ports_list = [];
    flags = [];
    ipv4 = [];
    ipv6 = [];
    hosts = [];
  };
  ephemerals = codes "32768,65535";
  iface_env = [];
  gae_env = [];
  iface = codes "eth";
  timezone = codes "UTC";
  directory = codes "/tmp";
  extension = codes "pcap";
  snaplen = 0;
  interval = 60;
  tcp_dump = true;
  json_dump = false;
  json_log = false;
  is_ordered = false;
  conntrack = false;
  gcp_gae = false;
}

main-code_example :
    main formatter mapset pcap netip engines flags (record {
      use_cron = true;
      duration = 5;
      locked = true;
      lock_failed = false;
      scheduler_failed = false;
      job_failed = true;
    })
    ≡ exit 4 true
unfolding task_options find_devices equal_fold text_eq to_lower chosen_iface lower matches_device
    is_numbered_from strip_prefix is_numbered is_digit
main-code_example =
    main-code formatter mapset pcap netip engines flags
      (record {
        use_cron = true;
        duration = 5;
        locked = true;
        lock_failed = false;
        scheduler_failed = false;
        job_failed = true;
      })
      (omega arith)

-- Names cut off at the first directive.
abbrev until_directive : Text → Text
until_directive [] = []
until_directive (c ∷ t) = let rest = until_directive t in if c == b'%' then [] else c ∷ rest

-- Engines and writers that are the pair of their output and their extension.
abbrev naming_engines : Engines
naming_engines = record {
  Engine = Text × Text;
  Writer = Text × Text;
  find_devices_by_regex = λ test. [];
  new_tcpdump = λ c. some (c.output, c.extension);
  new_pcap = λ c. none;
  new_pcap_writer = λ iface output ext timezone interval. some (output, ext);
  new_stdout_pcap_writer = λ iface. none;
}

abbrev file_of : Text × Text → Text → Text
file_of w date = until_directive w.0 ++ (date ++ (codes "." ++ w.1))

abbrev naming : Naming naming_engines
naming = record { engine_file = file_of; writer_file = file_of }

until_directive-append :
    (before : Text)
    → all (λ c. not (c == b'%')) before ≡ true
    → until_directive (before ++ date_directives) ≡ before
until_directive-append [] h = refl
until_directive-append (c ∷ t) h = ground (arith, until_directive-append t)

some_eq : (v w : Text × Text) → some v ≡ some w → v ≡ w
some_eq v w e = cc e

file_of-directives :
    (output ext : Text) (w : Text × Text) (before date : Text)
    → some (output, ext) ≡ some w
    → all (λ c. not (c == b'%')) before ≡ true
    → output ≡ before ++ date_directives
    → file_of w date ≡ before ++ (date ++ (codes "." ++ ext))
file_of-directives output ext w before date made clear e =
    rw (sym (some_eq (output, ext) w made), e, until_directive-append before clear) refl

naming-IsNaming : IsNaming naming_engines naming
naming-IsNaming = record {
  engine_file-directives = λ c w before date made clear e.
      file_of-directives c.output c.extension w before date made clear e;
  writer_file-directives = λ iface output ext timezone interval w before date made clear e.
      file_of-directives output ext w before date made clear e;
}

abbrev date : Text
date = codes "20240102T030405"

abbrev output : Text
output = run_file_output (codes "/tmp") eth0

find_submatch-configs_example :
    (find_submatch
        (codes "/tmp")
        (codes "pcap" ∷ codes "json" ∷ [])
        (file_of (output, codes "pcap") date)
      ≡ some (record { index = codes "2"; iface = codes "eth0"; ext = codes "pcap" }))
    × (find_submatch
          (codes "/tmp")
          (codes "pcap" ∷ codes "json" ∷ [])
          (file_of (output, codes "json") date)
        ≡ some (record { index = codes "2"; iface = codes "eth0"; ext = codes "json" }))
    × (parse_uint 65535 (codes "2") ≡ parsed 2)
unfolding strip_shape is_digit contains text_eq decimal digits tcpdump_config new_pcap_config
    file_writer
find_submatch-configs_example =
    find_submatch-configs naming_engines naming naming-IsNaming eth_options eth0 date
      (codes "pcap" ∷ codes "json" ∷ []) refl refl refl refl 65535 (output, codes "pcap")
      (output, codes "json") refl refl refl refl (omega arith)

abbrev match : Match
match = record { index = codes "2"; iface = codes "eth0"; ext = codes "pcap" }

key_of_injective_example : match ≡ match
key_of_injective_example = key_of_injective match match refl refl refl
