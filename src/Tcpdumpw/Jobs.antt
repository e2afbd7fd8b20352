-- ===== src/Tcpdumpw/Jobs.antt =====
-- The runs of the scheduled job in tcpdumpw/main.go: `beforeTcpdump`, `tcpdump` and `afterTcpdump`, with
-- the identifiers that they set, and what `jlog` writes meanwhile. The scheduler calls the three in this
-- order, one run at a time, the last one behind a run without an error.
-- `beforeTcpdump` and `afterTcpdump` are one action each: no other thread logs in the middle of them.
pub mod Runs
pub mod Scheduled
use cloud_run_tcpdump.Prelude.{if◌then◌else◌, Option, none, some, List, [], ◌∷◌, ◌++◌}
use cloud_run_tcpdump.Text.{Text, codes, text_eq}

pub data Severity : Type 0 where
  info error fatal : Severity

-- `tcpdumpJob`, as far as it is written to the log.
pub record Job : Type 0 where
  pub xid : Text
  pub jid : Text
  pub name : Text
  pub tags : List Text

-- `jLogEntry`, but for the time.
pub record Entry : Type 0 where
  pub severity : Severity
  pub message : Text
  pub sidecar : Text
  pub module_name : Text
  pub job : Job
  pub tags : List Text

-- A line of the standard output, for an entry that was encoded, and of the standard error.
pub data Line : Type 0 where
  stdout : Text → Line
  stderr : Entry → Line

-- `json.Marshal`, where `none` is an error; `uuid.Nil.String()`, and the two variables of the
-- environment that the log holds.
pub record Env : Type 0 where
  pub marshal : Entry → Option Text
  pub nil_id : Text
  pub sidecar : Text
  pub module_name : Text
  pub project : Text

-- `jid`, `xid`, `jobs` and what was written.
pub record State : Type 0 where
  pub jid : Text
  pub xid : Text
  pub jobs : Text → Option Job
  pub lines : List Line

-- What ends the context of a run.
pub data Reason : Type 0 where
  deadline_exceeded canceled other : Reason

-- What `tcpdump` returns for an error.
pub data Failure : Type 0 where
  not_found : Text → Failure
  ended : Reason → Failure

module _ (env : Env) where
  abbrev pub encoded : Option Text → Entry → Line
  encoded none e = stderr e
  encoded (some text) e = stdout text

  abbrev pub entry_of : Severity → Job → Text → Text → Entry
  entry_of severity job message xid = record {
    severity = severity;
    message = message;
    sidecar = env.sidecar;
    module_name = env.module_name;
    job = record job { xid = xid };
    tags = job.tags;
  }

  abbrev pub line_of : Severity → Job → Text → Text → Line
  line_of severity job message xid =
      let e = entry_of severity job message xid in encoded (env.marshal e) e

  -- The job is written with the identifier of the run that goes on.
  unfoldable pub jlog : Severity → Job → Text → State → State
  jlog severity job message s = record s {
    lines = s.lines ++ (line_of severity job message s.xid ∷ []);
  }

  abbrev pub empty_job : Job
  empty_job = record { xid = []; jid = env.nil_id; name = []; tags = [] }

  -- `times` says when the job ran last and runs next.
  unfoldable pub log_started : Option Job → Text → State → State
  log_started none times s = s
  log_started (some job) times s =
      jlog info job (codes "execution started ( last execution: " ++ (times ++ codes " )")) s

  -- `fresh` is the value of `uuid.New()`.
  unfoldable pub before_tcpdump : Text → Text → Text → State → State
  before_tcpdump id times fresh s = record (log_started (s.jobs id) times s) { xid = fresh }

  unfoldable pub log_complete : Option Job → Text → State → State
  log_complete none times s = s
  log_complete (some job) times s =
      jlog info job (codes "next execution: " ++ times)
        (jlog info job (codes "execution complete") s)

  unfoldable pub after_tcpdump : Text → Text → State → State
  after_tcpdump id times s = record (log_complete (s.jobs id) times s) { xid = env.nil_id }

  -- What threads of the job log, in the order in which they do.
  unfoldable pub log_all : Job → List (Severity × Text) → State → State
  log_all job [] s = s
  log_all job ((severity, message) ∷ rest) s = log_all job rest (jlog severity job message s)

  -- A context that ends by its timeout or by a signal is no error.
  unfoldable pub clean : Reason → Option Failure
  clean deadline_exceeded = none
  clean canceled = none
  clean other = some (ended other)

  unfoldable pub run_found :
      Option Job → List (Severity × Text) → Reason → State → State × Option Failure
  run_found none logged reason s =
      let message = codes "job[id:" ++ (s.jid ++ codes "] not found") in
      (jlog error empty_job message s, some (not_found message))
  run_found (some job) logged reason s = (log_all job logged s, clean reason)

  -- `tcpdump`, where some lines are logged while its `start` goes on, which returns a reason.
  unfoldable pub tcpdump : List (Severity × Text) → Reason → State → State × Option Failure
  tcpdump logged reason s = run_found (s.jobs s.jid) logged reason s

  -- `PcapContextID` and `PcapContextLogName` of the run.
  unfoldable pub context_id : State → Text
  context_id s = codes "job/" ++ (s.jid ++ (codes "/exe/" ++ s.xid))

  unfoldable pub log_name : State → Text
  log_name s = codes "projects/" ++ (env.project ++ (codes "/pcap/" ++ context_id s))

  -- One run of the job, with what the threads of the job log while it goes on, and what they log behind
  -- it, before the next run begins: a task that outlives the wait of its `start` may log in either
  -- place, and while a later run goes on.
  pub record Run : Type 0 where
    pub fresh : Text
    pub last : Text
    pub following : Text
    pub logged : List (Severity × Text)
    pub left_over : List (Severity × Text)
    pub reason : Reason

  -- The scheduler calls the listener for the end of a run only if the run returned no error.
  unfoldable pub conclude : Text → Text → Option Failure → State → State
  conclude id times none s = after_tcpdump id times s
  conclude id times (some failure) s = s

  unfoldable pub log_left : Option Job → List (Severity × Text) → State → State
  log_left none logged s = s
  log_left (some job) logged s = log_all job logged s

  unfoldable pub run : Run → State → State × Option Failure
  run r s =
      let (ran, failure) = tcpdump r.logged r.reason (before_tcpdump s.jid r.last r.fresh s) in
      let concluded = conclude s.jid r.following failure ran in
      (log_left (s.jobs s.jid) r.left_over concluded, failure)

  unfoldable pub run_all : List Run → State → State × List (Option Failure)
  run_all [] s = (s, [])
  run_all (r ∷ rs) s =
      let (s', failure) = run r s in let (s'', rest) = run_all rs s' in (s'', failure ∷ rest)

  -- The identifiers and the map where `main` begins, with nothing written.
  abbrev pub initial : State
  initial = record { jid = env.nil_id; xid = env.nil_id; jobs = λ id. none; lines = [] }

  -- `jobs.Set`
  abbrev pub put_job : Text → Job → (Text → Option Job) → Text → Option Job
  put_job id job jobs k = if text_eq k id then some job else jobs k

  -- The job that `main` makes of the one that the scheduler returns, and what it logs of it.
  unfoldable pub register : Job → Text → State → State
  register job following s =
      let registered : State = record s { jid = job.jid; jobs = put_job job.jid job s.jobs } in
      jlog info job (codes "next execution: " ++ following)
        (jlog info job (codes "scheduled job") registered)
