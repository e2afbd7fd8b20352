-- ===== src/Tests/Schedule.antt =====
-- The scheduling of the job at concrete inputs.
use cloud_run_tcpdump.Prelude.{if◌then◌else◌, ◌≡◌, refl, Option, none, some, []}
use cloud_run_tcpdump.Text.{Text, codes, text_eq}
use cloud_run_tcpdump.Tcpdumpw.Schedule.{Zones, Gocron, prepare}
use cloud_run_tcpdump.Tcpdumpw.Schedule.Zone.{IsZoned, NamesUtc, prepare-zone}

abbrev zones : Zones
zones = record {
  Location = Text;
  load_location = λ t. if text_eq t (codes "UTC") then some t else none;
  load_error = λ t. codes "unknown";
  utc = codes "UTC";
  location_string = λ t. t;
}

abbrev gocron : Gocron zones
gocron = record { new_scheduler = λ s. none; new_job = λ j. none }

prepare-zone_example :
    IsZoned zones gocron
      (codes "Mars/North")
      (codes "* * * * *")
      []
      (codes "UTC")
      (prepare zones gocron (codes "Mars/North") (codes "* * * * *") [])
    × (◌≡◌ {A = Option Text} none none
        → NamesUtc zones gocron
            (codes "Mars/North")
            (codes "* * * * *")
            []
            (prepare zones gocron (codes "Mars/North") (codes "* * * * *") []))
unfolding text_eq
prepare-zone_example =
    prepare-zone zones gocron (codes "Mars/North") (codes "* * * * *") [] refl refl
