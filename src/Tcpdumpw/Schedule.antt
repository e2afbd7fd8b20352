-- ===== src/Tcpdumpw/Schedule.antt =====
-- The part of `main` in tcpdumpw/main.go that hands the job to the scheduler: the time zone, the
-- options of the scheduler, and the cron expression.
pub mod Zone
use cloud_run_tcpdump.Prelude.{ℕ, Bool, true, Option, none, some, List, [], ◌∷◌, ◌++◌}
use cloud_run_tcpdump.Text.{Text, codes}
use cloud_run_tcpdump.Tcpdumpw.Jobs.{Severity, info, error}

-- `time.LoadLocation` with the text of its error, `time.UTC`, and `Location.String`.
pub record Zones : Type 1 where
  pub Location : Type 0
  pub load_location : Text → Option Location
  pub load_error : Text → Text
  pub utc : Location
  pub location_string : Location → Text

abbrev pub Lines : Type 0
Lines = List (Severity × Text)

module _ (Z : Zones) where
  -- What `gocron.NewScheduler` is handed: the limit of jobs that run at once, the location, the tags.
  pub record SchedulerOptions : Type 0 where
    pub limit : ℕ
    pub location : Z.Location
    pub tags : List Text

  -- What `NewJob` is handed for `gocron.CronJob`, and the name of the job.
  pub record JobOptions : Type 0 where
    pub crontab : Text
    pub with_seconds : Bool
    pub name : Text

  -- Where `main` ends: without a scheduler, without a job, or with both; and what it logged.
  pub data Result : Type 0 where
    no_scheduler : SchedulerOptions → Lines → Result
    no_job : SchedulerOptions → JobOptions → Lines → Result
    scheduled : SchedulerOptions → JobOptions → Lines → Result

  -- `gocron.NewScheduler` and `NewJob`: `some` is the text of an error.
  pub record Gocron : Type 0 where
    pub new_scheduler : SchedulerOptions → Option Text
    pub new_job : JobOptions → Option Text

  -- The value of `*timezone`, the location, and what is logged, behind `time.LoadLocation`. The message
  -- is written when `*timezone` was set anew.
  unfoldable pub load_zone : Text → Option Z.Location → Text × Z.Location × Lines
  load_zone timezone none =
      let fallback = codes "UTC" in
      (
        fallback,
        Z.utc,
        (
          error,
          codes "could not load timezone '" ++ (fallback ++ (codes "': " ++ Z.load_error timezone)),
        )
            ∷ [],
      )
  load_zone timezone (some location) = (timezone, location, [])

  -- `fmt.Sprintf("TZ=%s %s", *timezone, *cron_exp)`
  unfoldable pub crontab_of : Text → Text → Text
  crontab_of timezone cron_exp = codes "TZ=" ++ (timezone ++ (codes " " ++ cron_exp))

  unfoldable pub scheduler_options : Z.Location → List Text → SchedulerOptions
  scheduler_options location tags = record { limit = 1; location = location; tags = tags }

  unfoldable pub job_options : Text → Text → JobOptions
  job_options timezone cron_exp = record {
    crontab = crontab_of timezone cron_exp;
    with_seconds = true;
    name = codes "tcpdump";
  }

  unfoldable pub add_job : SchedulerOptions → JobOptions → Option Text → Lines → Result
  add_job s j none lines = scheduled s j lines
  add_job s j (some err) lines =
      no_job s j (lines ++ ((error, codes "failed to create scheduled job: " ++ err) ∷ []))

  unfoldable pub add_scheduler :
      Gocron → SchedulerOptions → JobOptions → Option Text → Lines → Result
  add_scheduler G s j none lines = add_job s j (G.new_job j) lines
  add_scheduler G s j (some err) lines =
      no_scheduler s (lines ++ ((error, codes "failed to create scheduler: " ++ err) ∷ []))

  -- From `time.LoadLocation` to `NewJob`; the tags are five variables of the environment.
  unfoldable pub prepare : Gocron → Text → Text → List Text → Result
  prepare G timezone cron_exp tags =
      let (zone, location, lines) = load_zone timezone (Z.load_location timezone) in
      let s = scheduler_options location tags in
      add_scheduler G s (job_options zone cron_exp) (G.new_scheduler s)
        (lines ++ ((info, codes "parsed timezone: " ++ Z.location_string location) ∷ []))
