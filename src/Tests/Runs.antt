-- ===== src/Tests/Runs.antt =====
-- The runs of the scheduled job at concrete inputs.
use cloud_run_tcpdump.Prelude.{all, ◌≡◌, refl, true, some, List, [], ◌∷◌, ◌++◌}
use cloud_run_tcpdump.Text.{codes}
use cloud_run_tcpdump.PcapFsn.Move.{is_none}
use cloud_run_tcpdump.Tcpdumpw.Jobs as Jobs
use cloud_run_tcpdump.Tcpdumpw.Jobs.Runs.{all_lines}
use cloud_run_tcpdump.Tcpdumpw.Jobs.Scheduled.{scheduled_lines, register-run_all}

-- Two runs of the scheduled job.
abbrev env : Jobs.Env
env = record {
  marshal = λ e. some e.message;
  nil_id = codes "0";
  sidecar = codes "s";
  module_name = codes "m";
  project = codes "p";
}

abbrev job : Jobs.Job
job = record { xid = []; jid = codes "j"; name = codes "tcpdump"; tags = [] }

abbrev runs : List (Jobs.Run env)
runs =
    record {
      fresh = codes "a";
      last = codes "-";
      following = codes "t";
      logged = (Jobs.info, codes "timed out") ∷ [];
      left_over = (Jobs.info, codes "stopped") ∷ [];
      reason = Jobs.deadline_exceeded;
    }
    ∷ record {
      fresh = codes "b";
      last = codes "t";
      following = codes "u";
      logged = [];
      left_over = [];
      reason = Jobs.canceled;
    }
    ∷ []

abbrev registered : Jobs.State
registered = Jobs.register env job (codes "t") (Jobs.initial env)

register-run_all_example :
    ((Jobs.run_all env runs registered).0.lines
      ≡ scheduled_lines env job (codes "t") ++ all_lines env job runs)
    × ((Jobs.run_all env runs registered).0.xid ≡ codes "0")
    × (all is_none (Jobs.run_all env runs registered).1 ≡ true)
register-run_all_example = register-run_all env job (codes "t") runs refl
