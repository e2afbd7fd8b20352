-- ===== src/Tcpdumpw/Schedule/Zone.antt =====
-- In which time zone the schedule is read.
use cloud_run_tcpdump.Prelude.{
  ◌==◌, any, append-nil, sym, if◌then◌else◌, ◌≡◌, refl, ap, Bool, false, Option, none, some, List,
  [], ◌∷◌, ◌++◌, arith,
}
use cloud_run_tcpdump.Text.{Text, codes}
use cloud_run_tcpdump.PcapFsn.FileName.{strip_prefix}
use cloud_run_tcpdump.Tcpdumpw.Jobs.{Severity, error}
use cloud_run_tcpdump.Tcpdumpw.Schedule.{
  Zones, Lines, SchedulerOptions, JobOptions, Result, no_scheduler, no_job, scheduled, Gocron,
  load_zone, crontab_of, scheduler_options, job_options, add_job, add_scheduler, prepare,
}

-- A text up to its first blank, and what is behind it.
abbrev pub cut_blank : Text → Text × Text
cut_blank [] = ([], [])
cut_blank (c ∷ t) = let (word, rest) = cut_blank t in if c == 32 then ([], t) else (c ∷ word, rest)

abbrev pub cut_found : Option Text → Option (Text × Text)
cut_found none = none
cut_found (some t) = some (cut_blank t)

-- The zone and the times of a cron expression that begins with `TZ=`.
abbrev pub read_crontab : Text → Option (Text × Text)
read_crontab t = cut_found (strip_prefix (codes "TZ=") t)

abbrev pub has_blank : Text → Bool
has_blank = any (λ c. c == 32)

cut_blank-append :
    (zone rest : Text) → has_blank zone ≡ false → cut_blank (zone ++ (32 ∷ rest)) ≡ (zone, rest)
cut_blank-append [] rest h = refl
cut_blank-append (c ∷ zone) rest h =
    let here : (c == 32) ≡ false = ground arith in
    rw (here, cut_blank-append zone rest (ground arith)) refl

module _ (Z : Zones) where
  read_crontab-crontab_of :
      (zone times : Text)
      → has_blank zone ≡ false
      → read_crontab (crontab_of Z zone times) ≡ some (zone, times)
  unfolding crontab_of strip_prefix
  read_crontab-crontab_of zone times h = ap some (cut_blank-append zone times h)

  abbrev pub or_utc : Option Z.Location → Z.Location
  or_utc none = Z.utc
  or_utc (some location) = location

  -- What holds of the options, whatever becomes of the scheduler and its job.
  abbrev pub Handed : (SchedulerOptions Z → Type 0) → (JobOptions Z → Type 0) → Result Z → Type 0
  Handed P Q (no_scheduler s lines) = P s
  Handed P Q (no_job s j lines) = P s × Q j
  Handed P Q (scheduled s j lines) = P s × Q j

  abbrev pub lines_of : Result Z → Lines
  lines_of (no_scheduler s lines) = lines
  lines_of (no_job s j lines) = lines
  lines_of (scheduled s j lines) = lines

  module _ (G : Gocron Z) (P : SchedulerOptions Z → Type 0) (Q : JobOptions Z → Type 0) where
    Handed-add_job :
        (s : SchedulerOptions Z) (j : JobOptions Z) (o : Option Text) (lines : Lines)
        → P s
        → Q j
        → Handed P Q (add_job Z s j o lines)
    unfolding add_job
    Handed-add_job s j none lines p q = (p, q)
    Handed-add_job s j (some err) lines p q = (p, q)

    Handed-add_scheduler :
        (s : SchedulerOptions Z) (j : JobOptions Z) (o : Option Text) (lines : Lines)
        → P s
        → Q j
        → Handed P Q (add_scheduler Z G s j o lines)
    unfolding add_scheduler
    Handed-add_scheduler s j none lines p q = Handed-add_job s j (G.new_job j) lines p q
    Handed-add_scheduler s j (some err) lines p q = p

  -- The lines begin with these.
  abbrev pub BeginsWith : Lines → Lines → Type 0
  BeginsWith lines all = (rest : Lines) × (all ≡ lines ++ rest)

  BeginsWith-add_job :
      (s : SchedulerOptions Z) (j : JobOptions Z) (o : Option Text) (lines : Lines)
      → BeginsWith lines (lines_of (add_job Z s j o lines))
  unfolding add_job
  BeginsWith-add_job s j none lines = ([], sym (append-nil lines))
  BeginsWith-add_job s j (some err) lines = (_, refl)

  BeginsWith-add_scheduler :
      (G : Gocron Z) (s : SchedulerOptions Z) (j : JobOptions Z) (o : Option Text) (lines : Lines)
      → BeginsWith lines (lines_of (add_scheduler Z G s j o lines))
  unfolding add_scheduler
  BeginsWith-add_scheduler G s j none lines = BeginsWith-add_job s j (G.new_job j) lines
  BeginsWith-add_scheduler G s j (some err) lines = (_, refl)

  module _ (G : Gocron Z) (timezone times : Text) (tags : List Text) where
    -- The location that the options and the expression are to stand for.
    abbrev pub IsZoned : Z.Location → Result Z → Type 0
    IsZoned location =
        Handed (λ s. (s.location ≡ location) × (s.limit ≡ 1))
          (λ j.
            (zone : Text) × (read_crontab j.crontab ≡ some (zone, times))
            × (Z.load_location zone ≡ some location))

    IsZoned-load :
        (o : Option Z.Location)
        → Z.load_location timezone ≡ o
        → has_blank timezone ≡ false
        → Z.load_location (codes "UTC") ≡ some Z.utc
        → let (zone, location, lines) = load_zone Z timezone o in
          let s = scheduler_options Z location tags in
          (more : Lines)
          → IsZoned
              (or_utc o)
              (add_scheduler Z G s (job_options Z zone times) (G.new_scheduler s) more)
    unfolding load_zone scheduler_options job_options
    IsZoned-load none e plain utc more =
        Handed-add_scheduler G _ _ _ _ _ more (refl, refl)
          (codes "UTC", read_crontab-crontab_of (codes "UTC") times refl, utc)
    IsZoned-load (some location) e plain utc more =
        Handed-add_scheduler G _ _ _ _ _ more (refl, refl)
          (timezone, read_crontab-crontab_of timezone times plain, e)

    -- What the log begins with where the zone cannot be loaded.
    abbrev pub NamesUtc : Result Z → Type 0
    NamesUtc r =
        (rest : Lines) × (lines_of r
          ≡ (error, codes "could not load timezone 'UTC': " ++ Z.load_error timezone) ∷ rest)

    NamesUtc-add_scheduler :
        (s : SchedulerOptions Z) (j : JobOptions Z) (o : Option Text) (line : Severity × Text)
        → NamesUtc (
            add_scheduler Z G s j o (
              (error, codes "could not load timezone 'UTC': " ++ Z.load_error timezone)
              ∷ line
              ∷ []))
    NamesUtc-add_scheduler s j o line =
        let begun = BeginsWith-add_scheduler G s j o _ in (line ∷ begun.0, begun.1)

    -- The schedule is read in the time zone that was asked for, if it can be loaded, and in UTC
    -- otherwise: the location of the scheduler is that one, and so is the zone that the cron expression
    -- begins with; the times behind it are those that were asked for, and one job may run at once;
    -- whatever becomes of the scheduler and its job; where the zone that was asked for has no blank, and
    -- UTC can be loaded. Where the zone cannot be loaded, the log begins with a line which says that
    -- `UTC` could not be.
    pub prepare-zone :
        has_blank timezone ≡ false
        → Z.load_location (codes "UTC") ≡ some Z.utc
        → IsZoned (or_utc (Z.load_location timezone)) (prepare Z G timezone times tags)
          × (Z.load_location timezone ≡ none → NamesUtc (prepare Z G timezone times tags))
    unfolding prepare load_zone
    prepare-zone plain utc = (
      IsZoned-load (Z.load_location timezone) refl plain utc _,
      λ e. rw (e, prepare, load_zone) (NamesUtc-add_scheduler _ _ _ _),
    )
