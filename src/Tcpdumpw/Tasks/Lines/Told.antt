-- ===== src/Tcpdumpw/Tasks/Lines/Told.antt =====
-- What the log of `createTasks` tells of the tasks.
use mathlib.Core.List.{map-append}
use cloud_run_tcpdump.Prelude.{
  ◌==◌, all, Bool-cases, if◌then◌else◌, ◌≡◌, refl, sym, ap, ◌∙◌, inl, inr, Bool, true, false, not,
  ◌&&◌, ◌||◌, Option, none, some, List, [], ◌∷◌, ◌++◌, map, append_assoc, arith,
}
use cloud_run_tcpdump.Text.{Text, codes, is_digit}
use cloud_run_tcpdump.Text.Decimal.{decimal, decimal-is_digit}
use cloud_run_tcpdump.PcapFsn.FileName.{strip_prefix}
use cloud_run_tcpdump.Tcpdumpw.Jobs.{Severity, info, error, fatal}
use cloud_run_tcpdump.Tcpdumpw.Tasks.{
  Device, Engines, Task, TaskOptions, is_gae, tcpdump_config, jsondump_config, iface_and_index,
}
use cloud_run_tcpdump.Tcpdumpw.Tasks.Expected.{
  wanted, concat_map, tasks_of, tcpdump_task, json_task,
}
use cloud_run_tcpdump.Tcpdumpw.Tasks.Lines.{
  Errors, Lines, tcpdump_lines, writer_lines, file_lines, stdout_lines, gae_lines, jsondump_lines,
  configure_lines, configure_all_lines,
}

-- The name of an interface behind its number and a slash.
abbrev pub behind_slash : Text → Text
behind_slash [] = []
behind_slash (c ∷ t) = let rest = behind_slash t in if c == b'/' then t else rest

abbrev pub name_in : Option Text → List Text
name_in none = []
name_in (some t) = behind_slash t ∷ []

-- The interface for which a line tells of a task.
abbrev pub told : Severity × Text → List Text
told (info, message) =
    name_in (strip_prefix (codes "configured 'tcpdump' for iface: ") message)
    ++ name_in (strip_prefix (codes "configured 'jsondump' for iface: ") message)
told (error, message) = []
told (fatal, message) = []

behind_slash-digits :
    (digits name : Text)
    → all is_digit digits ≡ true
    → behind_slash (digits ++ (b'/' ∷ name)) ≡ name
unfolding is_digit
behind_slash-digits [] name h = refl
behind_slash-digits (c ∷ digits) name h =
    let here : (c == b'/') ≡ false = ground arith in
    rw here (behind_slash-digits digits name (ground arith))

concat_map-append {ℓ κ} :
    {A : Type ℓ} {B : Type κ} (f : A → List B) (xs ys : List A)
    → concat_map f (xs ++ ys) ≡ concat_map f xs ++ concat_map f ys
concat_map-append f [] ys = refl
concat_map-append f (x ∷ xs) ys =
    rw (concat_map-append f xs ys) (sym (append_assoc (f x) (concat_map f xs) (concat_map f ys)))

module _ (E : Engines) (X : Errors) (o : TaskOptions) where
  behind_slash-iface : (d : Device) → behind_slash (iface_and_index E d) ≡ d.name
  unfolding iface_and_index
  behind_slash-iface d = behind_slash-digits (decimal d.index) d.name (decimal-is_digit d.index)

  told-tcpdump :
      (d : Device) (engine : Option E.Engine)
      → concat_map told (tcpdump_lines E X o d engine)
        ≡ map (λ e. d.name) (wanted o.tcp_dump engine)
  unfolding tcpdump_lines strip_prefix
  told-tcpdump d none = elim (Bool-cases o.tcp_dump) [
    | inl e ↦ rw (e, tcpdump_lines) refl
    | inr e ↦ rw (e, tcpdump_lines) refl
  ]
  told-tcpdump d (some engine) = elim (Bool-cases o.tcp_dump) [
    | inl e ↦ rw (e, tcpdump_lines) (ap (λ (t : Text). t ∷ []) (behind_slash-iface d))
    | inr e ↦ rw (e, tcpdump_lines) refl
  ]

  -- Lines on writers tell of no task.
  told-writer :
      (b : Bool) (made : Option E.Writer) (done broken : Text)
      → told (info, done) ≡ []
      → concat_map told (writer_lines E X o b made done broken) ≡ []
  unfolding writer_lines
  told-writer false made done broken h = refl
  told-writer true none done broken h = refl
  told-writer true (some w) done broken h = rw h refl

  told-file : (d : Device) → concat_map told (file_lines E X o d) ≡ []
  unfolding file_lines strip_prefix
  told-file d = told-writer o.json_dump _ _ _ refl

  told-stdout : (d : Device) → concat_map told (stdout_lines E X o d) ≡ []
  unfolding stdout_lines strip_prefix
  told-stdout d = told-writer o.json_log _ _ _ refl

  told-gae : (d : Device) → concat_map told (gae_lines E X o d) ≡ []
  unfolding gae_lines strip_prefix
  told-gae d = told-writer (is_gae o) _ _ _ refl

  told-jsondump :
      (d : Device) (engine : Option E.Engine)
      → concat_map told (jsondump_lines E X o d engine) ≡ map (λ e. d.name) (wanted true engine)
  unfolding jsondump_lines strip_prefix
  told-jsondump d none = refl
  told-jsondump d (some engine) =
      rw
        (
          concat_map-append told (file_lines E X o d) _,
          told-file d,
          concat_map-append told (stdout_lines E X o d) _,
          told-stdout d,
          concat_map-append told (gae_lines E X o d) _,
          told-gae d,
        )
        (ap (λ (t : Text). t ∷ []) (behind_slash-iface d))

  map-name :
      {B : Type 0} (f : B → Task E) (name : Text) (bs : List B)
      → ((b : B) → (f b).iface ≡ name)
      → map (λ (t : Task E). t.iface) (map f bs) ≡ map (λ b. name) bs
  map-name f name [] h = refl
  map-name f name (b ∷ bs) h = rw (h b, map-name f name bs h) refl

  -- The lines behind the first `continue`.
  abbrev json_lines : Device → Option E.Engine → Lines
  json_lines d engine =
      if not o.json_dump && not o.json_log then [] else jsondump_lines E X o d engine

  told-json_lines :
      (d : Device) (engine : Option E.Engine)
      → concat_map told (json_lines d engine)
        ≡ map (λ e. d.name) (wanted (o.json_dump || o.json_log) engine)
  told-json_lines d engine = elim (Bool-cases (o.json_dump || o.json_log)) [
    | inl e ↦
        let on : (not o.json_dump && not o.json_log) ≡ false = ground arith in
        rw (on, e) (told-jsondump d engine)
    | inr e ↦
        let off : (not o.json_dump && not o.json_log) ≡ true = ground arith in rw (off, e) refl
  ]

  told-configure :
      (d : Device)
      → concat_map told (configure_lines E X o d) ≡ map (λ (t : Task E). t.iface) (tasks_of E o d)
  unfolding configure_lines strip_prefix
  told-configure d =
      let first = E.new_tcpdump (tcpdump_config o d) in
      let second = E.new_pcap (jsondump_config o d) in
      concat_map-append told (tcpdump_lines E X o d first) (json_lines d second)
      ∙ rw
          (
            told-tcpdump d first,
            told-json_lines d second,
            map-append (λ (t : Task E). t.iface)
                (map (tcpdump_task E o d) (wanted o.tcp_dump first))
                (map (json_task E o d) (wanted (o.json_dump || o.json_log) second)),
            map-name (tcpdump_task E o d) d.name (wanted o.tcp_dump first) (λ b. refl),
            map-name (json_task E o d) d.name (wanted (o.json_dump || o.json_log) second)
                (λ b. refl),
          )
          refl

  pub told-configure_all :
      (ds : List Device)
      → concat_map told (configure_all_lines E X o ds)
        ≡ map (λ (t : Task E). t.iface) (concat_map (tasks_of E o) ds)
  unfolding configure_all_lines
  told-configure_all [] = refl
  told-configure_all (d ∷ ds) =
      rw
        (
          configure_all_lines,
          concat_map-append told (configure_lines E X o d) (configure_all_lines E X o ds),
          told-configure d,
          told-configure_all ds,
          map-append (λ (t : Task E). t.iface) (tasks_of E o d) (concat_map (tasks_of E o) ds),
        )
        refl
