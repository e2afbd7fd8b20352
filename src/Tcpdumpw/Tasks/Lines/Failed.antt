-- ===== src/Tcpdumpw/Tasks/Lines/Failed.antt =====
-- What the log of `createTasks` tells of failures.
use cloud_run_tcpdump.Prelude.{
  any, any-append, if◌then◌else◌, ◌≡◌, refl, sym, ap, ◌∙◌, Bool, true, false, not, ◌&&◌, ◌||◌,
  Option, none, some, List, [], ◌∷◌, ◌++◌, map, arith,
}
use cloud_run_tcpdump.Text.{Text, codes}
use cloud_run_tcpdump.PcapFsn.Move.{is_none}
use cloud_run_tcpdump.Tcpdumpw.Jobs.{Severity, info, error, fatal}
use cloud_run_tcpdump.Tcpdumpw.Tasks.{
  Device, Engines, Task, TaskOptions, is_gae, run_file_output, gae_file_output, tcpdump_config,
  jsondump_config, find_devices, iface_and_index, create_tasks,
}
use cloud_run_tcpdump.Tcpdumpw.Tasks.Expected.{concat_map, create_tasks-tasks_of}
use cloud_run_tcpdump.Tcpdumpw.Tasks.Lines.{
  Errors, Lines, tcpdump_lines, writer_lines, file_lines, stdout_lines, gae_lines, jsondump_lines,
  configure_lines, configure_all_lines, create_tasks_lines,
}
use cloud_run_tcpdump.Tcpdumpw.Tasks.Lines.Told.{told, told-configure_all}

module _ (E : Engines) (X : Errors) (o : TaskOptions) where
  -- The line tells of a failure.
  abbrev pub is_failure : Severity × Text → Bool
  is_failure (info, message) = false
  is_failure (error, message) = true
  is_failure (fatal, message) = true

  -- Something was asked for and could not be made.
  abbrev pub misses {ℓ} : {A : Type ℓ} → Bool → Option A → Bool
  misses b made = b && is_none made

  -- Something that was asked for on a device could not be made; without an engine no writer is tried.
  abbrev pub device_misses : Device → Bool
  device_misses d =
      let ii = iface_and_index E d in
      misses o.tcp_dump (E.new_tcpdump (tcpdump_config o d))
      || (o.json_dump || o.json_log)
        && (is_none (E.new_pcap (jsondump_config o d))
            || misses o.json_dump (
                E.new_pcap_writer ii (run_file_output o.directory d) (codes "json") o.timezone
                  o.interval)
            || misses o.json_log (E.new_stdout_pcap_writer ii)
            || misses (is_gae o)
                (E.new_pcap_writer ii (gae_file_output d) (codes "json") o.timezone o.interval))

  failures-writer :
      (b : Bool) (made : Option E.Writer) (done broken : Text)
      → any is_failure (writer_lines E X o b made done broken) ≡ misses b made
  unfolding writer_lines
  failures-writer false made done broken = refl
  failures-writer true none done broken = refl
  failures-writer true (some w) done broken = refl

  failures-tcpdump :
      (d : Device) (engine : Option E.Engine)
      → any is_failure (tcpdump_lines E X o d engine) ≡ misses o.tcp_dump engine
  unfolding tcpdump_lines
  failures-tcpdump d none = ground arith
  failures-tcpdump d (some engine) = ground arith

  failures-jsondump :
      (d : Device) (engine : Option E.Engine)
      → any is_failure (jsondump_lines E X o d engine) ≡ (
          is_none engine
          || any is_failure (file_lines E X o d)
          || any is_failure (stdout_lines E X o d)
          || any is_failure (gae_lines E X o d))
  unfolding jsondump_lines
  failures-jsondump d none = refl
  failures-jsondump d (some engine) =
      let last : Lines =
        (info, codes "configured 'jsondump' for iface: " ++ iface_and_index E d) ∷ [] in
      ground (
        arith,
        any-append is_failure (file_lines E X o d)
            (stdout_lines E X o d ++ (gae_lines E X o d ++ last)),
        any-append is_failure (stdout_lines E X o d) (gae_lines E X o d ++ last),
        any-append is_failure (gae_lines E X o d) last,
      )

  failures-file :
      (d : Device)
      → any is_failure (file_lines E X o d)
        ≡ misses o.json_dump (
            E.new_pcap_writer
              (iface_and_index E d)
              (run_file_output o.directory d)
              (codes "json")
              o.timezone
              o.interval)
  unfolding file_lines
  failures-file d = failures-writer o.json_dump _ _ _

  failures-stdout :
      (d : Device)
      → any is_failure (stdout_lines E X o d)
        ≡ misses o.json_log (E.new_stdout_pcap_writer (iface_and_index E d))
  unfolding stdout_lines
  failures-stdout d = failures-writer o.json_log _ _ _

  failures-gae :
      (d : Device)
      → any is_failure (gae_lines E X o d)
        ≡ misses (is_gae o) (
            E.new_pcap_writer
              (iface_and_index E d)
              (gae_file_output d)
              (codes "json")
              o.timezone
              o.interval)
  unfolding gae_lines
  failures-gae d = failures-writer (is_gae o) _ _ _

  failures-configure : (d : Device) → any is_failure (configure_lines E X o d) ≡ device_misses d
  unfolding configure_lines
  failures-configure d =
      let first = E.new_tcpdump (tcpdump_config o d) in
      let second = E.new_pcap (jsondump_config o d) in
      let rest = if not o.json_dump && not o.json_log then [] else jsondump_lines E X o d second in
      ground (
        arith,
        any-append is_failure (tcpdump_lines E X o d first) rest,
        failures-tcpdump d first,
        failures-jsondump d second,
        failures-file d,
        failures-stdout d,
        failures-gae d,
      )

  failures-configure_all :
      (ds : List Device) → any is_failure (configure_all_lines E X o ds) ≡ any device_misses ds
  unfolding configure_all_lines
  failures-configure_all [] = refl
  failures-configure_all (d ∷ ds) = ground (
    arith,
    any-append is_failure (configure_lines E X o d) (configure_all_lines E X o ds),
    failures-configure d,
    failures-configure_all ds,
  )

  -- The log of `createTasks` tells of the tasks: the interfaces in its lines on captures that were
  -- configured, each behind the number and a slash, are those of the tasks, in their order. It has a line
  -- on a failure exactly if, on one of the devices, something that was asked for could not be made: the
  -- capture by `tcpdump`, the capture to JSON, or one of its writers where its engine was made.
  pub create_tasks_lines-tasks :
      (concat_map told (create_tasks_lines E X o)
        ≡ map (λ (t : Task E). t.iface) (create_tasks E o))
      × (any is_failure (create_tasks_lines E X o) ≡ any device_misses (find_devices E o))
  unfolding create_tasks_lines
  create_tasks_lines-tasks = (
    told-configure_all E X o (find_devices E o)
        ∙ ap (map (λ (t : Task E). t.iface)) (sym (create_tasks-tasks_of E o)),
    failures-configure_all (find_devices E o),
  )
