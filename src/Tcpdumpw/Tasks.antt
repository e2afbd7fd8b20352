-- ===== src/Tcpdumpw/Tasks.antt =====
-- `createTasks` and `newPcapConfig` in tcpdumpw/main.go: which captures are configured, for which
-- network interfaces. What the capture library makes of a configuration is a parameter; `none` is an
-- error of it.
pub mod Expected
pub mod Bounds
pub mod Watched
pub mod Lines
use cloud_run_tcpdump.Prelude.{
  ◌==◌, if◌then◌else◌, all, ℕ, Bool, true, false, not, ◌&&◌, ◌||◌, Option, none, some, List, [],
  ◌∷◌, ◌++◌,
}
use cloud_run_tcpdump.Text.{Text, codes, text_eq, contains, equal_fold}
use cloud_run_tcpdump.Text.{is_digit}
use cloud_run_tcpdump.Text.Decimal.{decimal}
use cloud_run_tcpdump.PcapFsn.FileName.{strip_prefix}
use cloud_run_tcpdump.Filter.Compat.{Call}
use cloud_run_tcpdump.Filter.Provider.{Provider}
use cloud_run_tcpdump.Tcpdumpw.Ephemeral.{Ports}

-- `net.Interface`
pub record Device : Type 0 where
  pub index : ℕ
  pub name : Text

-- `pcap.PcapConfig`
pub record Config : Type 0 where
  pub compat : Bool
  pub promisc : Bool
  pub iface : Text
  pub snaplen : ℕ
  pub ts_type : Text
  pub format : Text
  pub output : Text
  pub extension : Text
  pub filter : Text
  pub interval : ℕ
  pub is_ordered : Bool
  pub conn_track : Bool
  pub filters : List Provider
  pub compat_filters : List Call
  pub ephemerals : Ports

-- The engines and writers of github.com/gchux/pcap-cli. `FindDevicesByRegex` takes the test that its
-- pattern stands for.
pub record Engines : Type 1 where
  pub Engine : Type 0
  pub Writer : Type 0
  pub find_devices_by_regex : (Text → Bool) → List Device
  pub new_tcpdump : Config → Option Engine
  pub new_pcap : Config → Option Engine
  pub new_pcap_writer : Text → Text → Text → Text → ℕ → Option Writer
  pub new_stdout_pcap_writer : Text → Option Writer

-- The parameters of `createTasks`, and the two variables of the environment that it reads.
pub record TaskOptions : Type 0 where
  pub iface_env : Text
  pub gae_env : Text
  pub iface_prefix : Text
  pub timezone : Text
  pub directory : Text
  pub extension : Text
  pub filter : Text
  pub filters : List Provider
  pub compat_filters : List Call
  pub snaplen : ℕ
  pub interval : ℕ
  pub compat : Bool
  pub tcp_dump : Bool
  pub json_dump : Bool
  pub json_log : Bool
  pub is_ordered : Bool
  pub conntrack : Bool
  pub gcp_gae : Bool
  pub ephemerals : Ports

-- `strconv.ParseBool`
unfoldable pub parse_bool : Text → Option Bool
parse_bool t =
    if contains
      (codes "1" ∷ codes "t" ∷ codes "T" ∷ codes "TRUE" ∷ codes "true" ∷ codes "True" ∷ []) t
    then some true
    else if contains
        (codes "0" ∷ codes "f" ∷ codes "F" ∷ codes "FALSE" ∷ codes "false" ∷ codes "False" ∷ []) t
    then some false
    else none

abbrev pub holds_true : Option Bool → Bool
holds_true none = false
holds_true (some b) = b

-- `isGAE`
unfoldable pub is_gae : TaskOptions → Bool
is_gae o = holds_true (parse_bool o.gae_env) || o.gcp_gae

-- The prefix of the interfaces to capture from.
unfoldable pub chosen_iface : TaskOptions → Text
chosen_iface o = if text_eq o.iface_env [] then o.iface_prefix else o.iface_env

-- `devicesRegexTemplate`, `^(?:(?:lo$)|(?:(?:ipvlan-)?%s\d+.*$))`, with the prefix read as plain text.
unfoldable pub is_numbered : Option Text → Bool
is_numbered none = false
is_numbered (some []) = false
is_numbered (some (c ∷ rest)) = is_digit c && all (λ d. not (d == 10)) rest

unfoldable pub is_numbered_from : Text → Option Text → Bool
is_numbered_from prefix none = false
is_numbered_from prefix (some name) = is_numbered (strip_prefix prefix name)

unfoldable pub matches_device : Text → Text → Bool
matches_device prefix name =
    text_eq name (codes "lo")
    || is_numbered_from prefix (strip_prefix (codes "ipvlan-") name)
    || is_numbered_from prefix (some name)

abbrev pub any_iface_name : Text
any_iface_name = codes "any"

-- `fmt.Sprintf(runFileOutput, directory, index, name)` and `fmt.Sprintf(gaeFileOutput, index, name)`.
abbrev pub date_directives : Text
date_directives = codes "%Y%m%dT%H%M%S"

unfoldable pub run_file_output : Text → Device → Text
run_file_output directory d =
    (directory ++ codes "/part__")
    ++ (decimal d.index ++ (codes "_" ++ (d.name ++ (codes "__" ++ date_directives))))

unfoldable pub gae_file_output : Device → Text
gae_file_output d =
    codes "/var/log/app_engine/app/app_pcap__"
    ++ (decimal d.index ++ (codes "_" ++ (d.name ++ (codes "__" ++ date_directives))))

unfoldable pub new_pcap_config : TaskOptions → Text → Text → Text → Text → Config
new_pcap_config o iface format output extension = record {
  compat = o.compat;
  promisc = true;
  iface = iface;
  snaplen = o.snaplen;
  ts_type = [];
  format = format;
  output = output;
  extension = extension;
  filter = o.filter;
  interval = o.interval;
  is_ordered = o.is_ordered;
  conn_track = o.conntrack;
  filters = o.filters;
  compat_filters = o.compat_filters;
  ephemerals = o.ephemerals;
}

unfoldable pub tcpdump_config : TaskOptions → Device → Config
tcpdump_config o d =
    new_pcap_config o d.name (codes "pcap") (run_file_output o.directory d) o.extension

unfoldable pub jsondump_config : TaskOptions → Device → Config
jsondump_config o d =
    new_pcap_config o d.name (codes "json") (run_file_output o.directory d) (codes "json")

module _ (E : Engines) where
  pub record Task : Type 0 where
    pub engine : E.Engine
    pub writers : List E.Writer
    pub iface : Text

  unfoldable pub find_devices : TaskOptions → List Device
  find_devices o =
      if equal_fold (chosen_iface o) any_iface_name
      then record { index = 0; name = any_iface_name } ∷ []
      else E.find_devices_by_regex (matches_device (chosen_iface o))

  -- A writer is made if it is asked for, and is left out where that fails.
  unfoldable pub add_writer : Bool → Option E.Writer → List E.Writer → List E.Writer
  add_writer false made writers = writers
  add_writer true none writers = writers
  add_writer true (some w) writers = writers ++ (w ∷ [])

  -- `ifaceAndIndex`
  unfoldable pub iface_and_index : Device → Text
  iface_and_index d = decimal d.index ++ (codes "/" ++ d.name)

  -- The writer to a file of `PCAP` in JSON.
  unfoldable pub file_writer : TaskOptions → Device → Option E.Writer
  file_writer o d =
      E.new_pcap_writer (iface_and_index d) (run_file_output o.directory d) (codes "json")
        o.timezone o.interval

  unfoldable pub json_writers : TaskOptions → Device → List E.Writer
  json_writers o d =
      let file = file_writer o d in
      let stdout = E.new_stdout_pcap_writer (iface_and_index d) in
      let gae =
        E.new_pcap_writer (iface_and_index d) (gae_file_output d) (codes "json") o.timezone
          o.interval in
      add_writer (is_gae o) gae (add_writer o.json_log stdout (add_writer o.json_dump file []))

  -- From `if *tcpdump` to the first `continue`.
  unfoldable pub add_tcpdump : TaskOptions → Device → Option E.Engine → List Task → List Task
  add_tcpdump o d none tasks = tasks
  add_tcpdump o d (some engine) tasks =
      if o.tcp_dump
      then tasks ++ (record { engine = engine; writers = []; iface = d.name } ∷ [])
      else tasks

  -- Behind the second `continue`: a device whose JSON engine fails has no JSON task.
  unfoldable pub add_jsondump : TaskOptions → Device → Option E.Engine → List Task → List Task
  add_jsondump o d none tasks = tasks
  add_jsondump o d (some engine) tasks =
      tasks ++ (record { engine = engine; writers = json_writers o d; iface = d.name } ∷ [])

  -- A round of the loop over the devices.
  unfoldable pub configure : TaskOptions → Device → List Task → List Task
  configure o d tasks =
      let dumped = add_tcpdump o d (E.new_tcpdump (tcpdump_config o d)) tasks in
      if not o.json_dump && not o.json_log
      then dumped
      else add_jsondump o d (E.new_pcap (jsondump_config o d)) dumped

  unfoldable pub configure_all : TaskOptions → List Device → List Task → List Task
  configure_all o [] tasks = tasks
  configure_all o (d ∷ ds) tasks = configure_all o ds (configure o d tasks)

  unfoldable pub create_tasks : TaskOptions → List Task
  create_tasks o = configure_all o (find_devices o) []
