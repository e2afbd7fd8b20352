-- ===== src/Tcpdumpw/Tasks/Lines.antt =====
-- What `createTasks` in tcpdumpw/main.go logs: severities and messages, in order.
pub mod Told
pub mod Failed
use cloud_run_tcpdump.Prelude.{
  if◌then◌else◌, Bool, true, false, not, ◌&&◌, Option, none, some, List, [], ◌∷◌, ◌++◌,
}
use cloud_run_tcpdump.Text.{Text, codes}
use cloud_run_tcpdump.Tcpdumpw.Jobs.{Severity, info, error}
use cloud_run_tcpdump.Tcpdumpw.Tasks.{
  Device, Config, Engines, TaskOptions, is_gae, run_file_output, gae_file_output, tcpdump_config,
  jsondump_config, find_devices, iface_and_index,
}

-- The texts of the errors of the capture library, where it returns one.
pub record Errors : Type 0 where
  pub new_tcpdump : Config → Text
  pub new_pcap : Config → Text
  pub new_pcap_writer : Text → Text → Text
  pub new_stdout_pcap_writer : Text → Text

abbrev pub Lines : Type 0
Lines = List (Severity × Text)

-- `errGaeDisabled`
abbrev pub gae_disabled : Text
gae_disabled = codes "GAE JSON log disabled"

module _ (E : Engines) (X : Errors) (o : TaskOptions) where
  -- `failed: <iface> (<error>)`, as the messages on failures end.
  unfoldable pub failure : Text → Device → Text → Text
  failure what d err = what ++ (iface_and_index E d ++ (codes " (" ++ (err ++ codes ")")))

  -- From `if *tcpdump` to the first `continue`.
  unfoldable pub tcpdump_lines : Device → Option E.Engine → Lines
  tcpdump_lines d none =
      if o.tcp_dump
      then (
        error,
        failure (codes "tcpdump GCS writer creation failed: ") d
            (X.new_tcpdump (tcpdump_config o d)),
      )
        ∷ []
      else []
  tcpdump_lines d (some engine) =
      if o.tcp_dump
      then (info, codes "configured 'tcpdump' for iface: " ++ iface_and_index E d) ∷ []
      else []

  -- The branches behind the making of a writer, which is asked for or not.
  unfoldable pub writer_lines : Bool → Option E.Writer → Text → Text → Lines
  writer_lines false made done broken = []
  writer_lines true none done broken = (error, broken) ∷ []
  writer_lines true (some w) done broken = (info, done) ∷ []

  unfoldable pub file_lines : Device → Lines
  file_lines d =
      let output = run_file_output o.directory d in
      writer_lines o.json_dump
        (E.new_pcap_writer (iface_and_index E d) output (codes "json") o.timezone o.interval)
        (codes "configured JSON '"
          ++ (output ++ (codes "' writer for iface: " ++ iface_and_index E d)))
        (failure (codes "jsondump GCS writer creation failed: ") d
          (X.new_pcap_writer (iface_and_index E d) output))

  unfoldable pub stdout_lines : Device → Lines
  stdout_lines d =
      writer_lines o.json_log (E.new_stdout_pcap_writer (iface_and_index E d))
        (codes "configured JSON 'stdout' writer for iface: " ++ iface_and_index E d)
        (failure (codes "jsondump stdout writer creation failed: ") d
          (X.new_stdout_pcap_writer (iface_and_index E d)))

  -- A failure is logged with the error for a log that is disabled.
  unfoldable pub gae_lines : Device → Lines
  gae_lines d =
      let output = gae_file_output d in
      writer_lines (is_gae o)
        (E.new_pcap_writer (iface_and_index E d) output (codes "json") o.timezone o.interval)
        (codes "configured GAE JSON '"
          ++ (output ++ (codes "' writer for iface: " ++ iface_and_index E d)))
        (failure (codes "jsondump GAE json writer creation failed: ") d gae_disabled)

  -- Behind the first `continue`.
  unfoldable pub jsondump_lines : Device → Option E.Engine → Lines
  jsondump_lines d none =
      (
        error,
        failure (codes "jsondump task creation failed: ") d (X.new_pcap (jsondump_config o d)),
      )
      ∷ []
  jsondump_lines d (some engine) =
      file_lines d
      ++ (stdout_lines d
          ++ (gae_lines d
              ++ ((info, codes "configured 'jsondump' for iface: " ++ iface_and_index E d) ∷ [])))

  -- A round of the loop over the devices.
  unfoldable pub configure_lines : Device → Lines
  configure_lines d =
      ((info, codes "configuring PCAP for iface: " ++ iface_and_index E d) ∷ [])
      ++ (tcpdump_lines d (E.new_tcpdump (tcpdump_config o d))
          ++ (if not o.json_dump && not o.json_log
              then []
              else jsondump_lines d (E.new_pcap (jsondump_config o d))))

  unfoldable pub configure_all_lines : List Device → Lines
  configure_all_lines [] = []
  configure_all_lines (d ∷ ds) = configure_lines d ++ configure_all_lines ds

  unfoldable pub create_tasks_lines : Lines
  create_tasks_lines = configure_all_lines (find_devices E o)
