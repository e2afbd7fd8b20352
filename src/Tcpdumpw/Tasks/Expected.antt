-- ===== src/Tcpdumpw/Tasks/Expected.antt =====
-- The tasks that a set of options asks for.
use cloud_run_tcpdump.Prelude.{
  Bool-cases, ◌≡◌, refl, sym, inl, inr, Bool, true, false, not, ◌&&◌, ◌||◌, Option, none, some,
  List, [], ◌∷◌, ◌++◌, map, append_assoc, append-nil, arith,
}
use cloud_run_tcpdump.Text.{codes}
use cloud_run_tcpdump.Tcpdumpw.Tasks.{
  Device, Engines, Task, TaskOptions, is_gae, run_file_output, gae_file_output, tcpdump_config,
  jsondump_config, find_devices, add_writer, iface_and_index, json_writers, file_writer,
  add_tcpdump, add_jsondump, configure, configure_all, create_tasks,
}

-- What is made if it is asked for.
abbrev pub wanted {ℓ} : {A : Type ℓ} → Bool → Option A → List A
wanted false o = []
wanted true none = []
wanted true (some a) = a ∷ []

abbrev pub concat_map {ℓ κ} : {A : Type ℓ} {B : Type κ} → (A → List B) → List A → List B
concat_map f [] = []
concat_map f (a ∷ rest) = f a ++ concat_map f rest

module _ (E : Engines) (o : TaskOptions) where
  -- The writers of a JSON task: to the file, to the standard output, and to the log of App Engine.
  abbrev pub writers_of : Device → List E.Writer
  writers_of d =
      let file =
        E.new_pcap_writer (iface_and_index E d) (run_file_output o.directory d) (codes "json")
          o.timezone o.interval in
      let gae =
        E.new_pcap_writer (iface_and_index E d) (gae_file_output d) (codes "json") o.timezone
          o.interval in
      wanted o.json_dump file
      ++ (wanted o.json_log (E.new_stdout_pcap_writer (iface_and_index E d))
          ++ wanted (is_gae o) gae)

  abbrev pub tcpdump_task : Device → E.Engine → Task E
  tcpdump_task d engine = record { engine = engine; writers = []; iface = d.name }

  abbrev pub json_task : Device → E.Engine → Task E
  json_task d engine = record { engine = engine; writers = writers_of d; iface = d.name }

  -- The tasks of a device: a capture by `tcpdump` and one to JSON, each if it is asked for and its
  -- engine can be made.
  abbrev pub tasks_of : Device → List (Task E)
  tasks_of d =
      map (tcpdump_task d) (wanted o.tcp_dump (E.new_tcpdump (tcpdump_config o d)))
      ++ map (json_task d) (wanted (o.json_dump || o.json_log) (E.new_pcap (jsondump_config o d)))

  add_writer-wanted :
      (b : Bool) (made : Option E.Writer) (ws : List E.Writer)
      → add_writer E b made ws ≡ ws ++ wanted b made
  unfolding add_writer
  add_writer-wanted false made ws = sym (append-nil ws)
  add_writer-wanted true none ws = sym (append-nil ws)
  add_writer-wanted true (some w) ws = refl

  json_writers-writers_of : (d : Device) → json_writers E o d ≡ writers_of d
  unfolding json_writers file_writer
  json_writers-writers_of d = simp (add_writer-wanted, append_assoc)

  add_tcpdump-wanted :
      (d : Device) (engine : Option E.Engine) (tasks : List (Task E))
      → add_tcpdump E o d engine tasks ≡ tasks ++ map (tcpdump_task d) (wanted o.tcp_dump engine)
  unfolding add_tcpdump
  add_tcpdump-wanted d none tasks = ground (arith, append-nil tasks)
  add_tcpdump-wanted d (some engine) tasks = ground (arith, append-nil tasks)

  add_jsondump-wanted :
      (d : Device) (engine : Option E.Engine) (tasks : List (Task E))
      → add_jsondump E o d engine tasks ≡ tasks ++ map (json_task d) (wanted true engine)
  unfolding add_jsondump
  add_jsondump-wanted d none tasks = sym (append-nil tasks)
  add_jsondump-wanted d (some engine) tasks = rw (json_writers-writers_of d) refl

  configure-tasks_of :
      (d : Device) (tasks : List (Task E)) → configure E o d tasks ≡ tasks ++ tasks_of d
  unfolding configure
  configure-tasks_of d tasks =
      let dumped = add_tcpdump E o d (E.new_tcpdump (tcpdump_config o d)) tasks in
      let tcpdumps =
        map (tcpdump_task d) (wanted o.tcp_dump (E.new_tcpdump (tcpdump_config o d))) in
      let first : dumped ≡ tasks ++ tcpdumps =
        add_tcpdump-wanted d (E.new_tcpdump (tcpdump_config o d)) tasks in
      elim (Bool-cases (o.json_dump || o.json_log)) [
        | inl e ↦
            let on : (not o.json_dump && not o.json_log) ≡ false = ground arith in
            rw
              (
                configure,
                on,
                e,
                add_jsondump-wanted d (E.new_pcap (jsondump_config o d)) dumped,
                first,
              )
              (append_assoc tasks tcpdumps _)
        | inr e ↦
            let off : (not o.json_dump && not o.json_log) ≡ true = ground arith in
            rw (configure, off, e, append-nil tcpdumps) first
      ]

  configure_all-tasks_of :
      (ds : List Device) (tasks : List (Task E))
      → configure_all E o ds tasks ≡ tasks ++ concat_map tasks_of ds
  unfolding configure_all
  configure_all-tasks_of [] tasks = sym (append-nil tasks)
  configure_all-tasks_of (d ∷ ds) tasks =
      rw (configure_all-tasks_of ds (configure E o d tasks), configure-tasks_of d tasks)
        (append_assoc tasks (tasks_of d) (concat_map tasks_of ds))

  -- `createTasks` gives each device the tasks that the options ask for, the devices in their order:
  -- one capture by `tcpdump` and one to JSON, each if it is asked for and its engine can be made. The
  -- JSON task has the writers that are asked for and can be made, even if there is none.
  pub create_tasks-tasks_of : create_tasks E o ≡ concat_map tasks_of (find_devices E o)
  unfolding create_tasks
  create_tasks-tasks_of = configure_all-tasks_of (find_devices E o) []
