-- ===== src/Tcpdumpw/Tasks/Watched.antt =====
-- The files of the tasks, as pcap-fsnotify/main.go sees them.
use cloud_run_tcpdump.Prelude.{
  ◌==◌, is_nil, all, all-append, ℕ, ◌≤◌, ◌≡◌, refl, ◌∙◌, Bool, true, false, not, ◌&&◌, some, List,
  [], ◌∷◌, ◌++◌, append_assoc, arith,
}
use cloud_run_tcpdump.Text.{Text, codes, contains, parsed, parse_uint}
use cloud_run_tcpdump.Text.{is_digit}
use cloud_run_tcpdump.Text.Decimal.{decimal, decimal-is_digit, decimal-ne-nil, parse_uint-decimal}
use cloud_run_tcpdump.PcapFsn.FileName.{strip_shape, find_submatch}
use cloud_run_tcpdump.PcapFsn.FileName.Written.{
  date_shape, is_plain, file_name, find_submatch-file_name,
}
use cloud_run_tcpdump.Tcpdumpw.Tasks.{
  Device, Config, Engines, TaskOptions, run_file_output, date_directives, tcpdump_config,
  new_pcap_config, iface_and_index, file_writer,
}

-- The names of the files that the capture library writes, at a date: those of an engine for `tcpdump`,
-- and those of a writer.
pub record Naming (E : Engines) : Type 0 where
  pub engine_file : E.Engine → Text → Text
  pub writer_file : E.Writer → Text → Text

-- The directives of the name of the output are replaced by the date, and the extension follows behind
-- a dot: both of the configuration of the engine, or both handed to the writer.
pub record IsNaming (E : Engines) (W : Naming E) : Type 0 where
  pub engine_file-directives :
      (c : Config) (engine : E.Engine) (before date : Text)
      → E.new_tcpdump c ≡ some engine
      → all (λ d. not (d == b'%')) before ≡ true
      → c.output ≡ before ++ date_directives
      → W.engine_file engine date ≡ before ++ (date ++ (codes "." ++ c.extension))
  pub writer_file-directives :
      (iface output ext timezone : Text) (interval : ℕ) (writer : E.Writer) (before date : Text)
      → E.new_pcap_writer iface output ext timezone interval ≡ some writer
      → all (λ d. not (d == b'%')) before ≡ true
      → output ≡ before ++ date_directives
      → W.writer_file writer date ≡ before ++ (date ++ (codes "." ++ ext))

-- No directive, no underscore and no line feed.
abbrev pub is_clear : ℕ → Bool
is_clear c = not (c == b'%') && is_plain c

all-is_clear :
    (t : Text)
    → all is_clear t ≡ true
    → (all (λ c. not (c == b'%')) t ≡ true) × (all is_plain t ≡ true)
all-is_clear [] h = (refl, refl)
all-is_clear (c ∷ t) h = ground (arith, all-is_clear t)

no_directive : (t : Text) → all is_digit t ≡ true → all (λ c. not (c == b'%')) t ≡ true
unfolding is_digit
no_directive [] h = refl
no_directive (c ∷ t) h = ground (arith, no_directive t)

module _ (directory : Text) (d : Device) where
  -- The output without the directives.
  abbrev before : Text
  before =
      (directory ++ codes "/part__") ++ (decimal d.index ++ (codes "_" ++ (d.name ++ codes "__")))

  run_file_output-before : run_file_output directory d ≡ before ++ date_directives
  unfolding run_file_output
  run_file_output-before = simp append_assoc

module _ (E : Engines) (W : Naming E) (L : IsNaming E W) (o : TaskOptions) (d : Device)
    (date : Text) (exts : List Text) (clear_dir : all (λ c. not (c == b'%')) o.directory ≡ true)
    (clear_name : all is_clear d.name ≡ true) (some_name : is_nil d.name ≡ false)
    (dated : strip_shape date_shape date ≡ some []) where
  before_clear : all (λ c. not (c == b'%')) (before o.directory d) ≡ true
  before_clear =
      rw
        (
          all-append (λ c. not (c == b'%')) (o.directory ++ codes "/part__")
              (decimal d.index ++ (codes "_" ++ (d.name ++ codes "__"))),
          all-append (λ c. not (c == b'%')) o.directory (codes "/part__"),
          all-append (λ c. not (c == b'%')) (decimal d.index) (codes "_" ++ (d.name ++ codes "__")),
          all-append (λ c. not (c == b'%')) d.name (codes "__"),
          clear_dir,
          no_directive (decimal d.index) (decimal-is_digit d.index),
          (all-is_clear d.name clear_name).0,
        )
        refl

  read_back :
      (ext file : Text)
      → file ≡ before o.directory d ++ (date ++ (codes "." ++ ext))
      → contains exts ext ≡ true
      → find_submatch o.directory exts file
        ≡ some (record { index = decimal d.index; iface = d.name; ext = ext })
  unfolding file_name
  read_back ext file e known =
      let written : file ≡ file_name o.directory (decimal d.index) d.name date ext =
        e ∙ simp append_assoc in
      rw written (
        find_submatch-file_name o.directory exts (decimal d.index) d.name date ext
          (decimal-is_digit d.index) (decimal-ne-nil d.index) (all-is_clear d.name clear_name).1
          some_name dated known)

  -- The watcher, on the same directory, reads the number and the name of the interface and the
  -- extension back from the files of both captures of a device, those of the engine for `tcpdump` and
  -- those of the writer to a file of the JSON task, and the number is the one of the interface; for an
  -- interface without underscores, percent signs and line feeds, a directory without percent signs, a
  -- date of the expected shape, and extensions that are watched, where the engine and the writer can
  -- be made.
  pub find_submatch-configs :
      (max : ℕ) (engine : E.Engine) (writer : E.Writer)
      → E.new_tcpdump (tcpdump_config o d) ≡ some engine
      → file_writer E o d ≡ some writer
      → contains exts o.extension ≡ true
      → contains exts (codes "json") ≡ true
      → d.index ≤ max
      → (find_submatch o.directory exts (W.engine_file engine date)
          ≡ some (record { index = decimal d.index; iface = d.name; ext = o.extension }))
        × (find_submatch o.directory exts (W.writer_file writer date)
            ≡ some (record { index = decimal d.index; iface = d.name; ext = codes "json" }))
        × (parse_uint max (decimal d.index) ≡ parsed d.index)
  unfolding tcpdump_config new_pcap_config file_writer
  find_submatch-configs max engine writer made opened known json fits = (
    read_back o.extension (W.engine_file engine date)
        (L.engine_file-directives (tcpdump_config o d) engine (before o.directory d) date made
          before_clear (run_file_output-before o.directory d))
        known,
    read_back (codes "json") (W.writer_file writer date)
        (L.writer_file-directives (iface_and_index E d) (run_file_output o.directory d)
          (codes "json") o.timezone o.interval writer (before o.directory d) date opened
          before_clear (run_file_output-before o.directory d))
        json,
    parse_uint-decimal max d.index fits,
  )
