-- ===== src/Tcpdumpw/Jobs/Scheduled.antt =====
-- The scheduled job from its registration on.
use cloud_run_tcpdump.Prelude.{
  if◌then◌else◌, all, ◌≡◌, refl, ap, true, none, some, List, [], ◌∷◌, ◌++◌,
}
use cloud_run_tcpdump.Text.{Text, codes}
use cloud_run_tcpdump.Text.Laws.{text_eq_refl}
use cloud_run_tcpdump.PcapFsn.Move.{is_none}
use cloud_run_tcpdump.Tcpdumpw.Jobs.{
  info, Job, Line, Env, line_of, jlog, Run, run_all, initial, register,
}
use cloud_run_tcpdump.Tcpdumpw.Jobs.Runs.{all_lines, is_clean, run_all-lines}

module _ (env : Env) (job : Job) where
  -- The two lines of the registration, before any run.
  abbrev pub scheduled_lines : Text → List Line
  scheduled_lines following =
      line_of env info job (codes "scheduled job") env.nil_id
      ∷ line_of env info job (codes "next execution: " ++ following) env.nil_id
      ∷ []

  -- The job that `main` registers, run any number of times, each run ended by its timeout or a
  -- signal, where no other thread logs in the middle of `beforeTcpdump` or `afterTcpdump`: it is
  -- found by every run, and no run returns an error. The log has the two lines of the registration
  -- and then the lines of the job in their order: those written while a run goes on, whichever run
  -- their task is of, with the identifier of the run that goes on, but for the first line of a run,
  -- and with the nil identifier those between the runs, as those of tasks that outlive their run;
  -- and no identifier is left behind.
  pub register-run_all :
      (following : Text) (rs : List (Run env))
      → all (λ (r : Run env). is_clean env job r.reason) rs ≡ true
      → let s = register env job following (initial env) in
        ((run_all env rs s).0.lines ≡ scheduled_lines following ++ all_lines env job rs)
        × ((run_all env rs s).0.xid ≡ env.nil_id)
        × (all is_none (run_all env rs s).1 ≡ true)
  unfolding register jlog
  register-run_all following rs clean =
      run_all-lines env job rs (register env job following (initial env))
        (ap (λ b. if b then some job else none) (text_eq_refl job.jid)) refl clean
