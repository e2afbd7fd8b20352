-- ===== src/Tcpdumpw/Jobs/Runs.antt =====
-- The log of the runs.
use cloud_run_tcpdump.Prelude.{
  all, ◌≡◌, refl, sym, ap, ◌∙◌, Bool, true, false, Option, none, some, List, [], ◌∷◌, ◌++◌,
  append_assoc, append-nil, arith,
}
use cloud_run_tcpdump.Text.{Text, codes}
use cloud_run_tcpdump.PcapFsn.Move.{is_none}
use cloud_run_tcpdump.Tcpdumpw.Jobs.{
  Severity, info, Job, Line, Env, State, Reason, deadline_exceeded, canceled, other, line_of, jlog,
  log_started, before_tcpdump, log_complete, after_tcpdump, log_all, clean, run_found, tcpdump,
  log_left, conclude, Run, run, run_all,
}

module _ (env : Env) (job : Job) where
  abbrev body : Text → List (Severity × Text) → List Line
  body xid [] = []
  body xid ((severity, message) ∷ rest) = line_of env severity job message xid ∷ body xid rest

  abbrev started_message : Text → Text
  started_message last = codes "execution started ( last execution: " ++ (last ++ codes " )")

  abbrev last_lines : Run env → List Line
  last_lines r =
      line_of env info job (codes "execution complete") r.fresh
      ∷ line_of env info job (codes "next execution: " ++ r.following) r.fresh
      ∷ []

  -- The lines of a run, all but the first with the identifier of the run, and those behind it, which
  -- have the nil identifier.
  abbrev pub lines_with : Text → Run env → List Line
  lines_with xid r =
      (line_of env info job (started_message r.last) xid ∷ [])
      ++ (body r.fresh r.logged ++ (last_lines r ++ body env.nil_id r.left_over))

  abbrev pub all_lines : List (Run env) → List Line
  all_lines [] = []
  all_lines (r ∷ rs) = lines_with env.nil_id r ++ all_lines rs

  abbrev pub is_clean : Reason → Bool
  is_clean deadline_exceeded = true
  is_clean canceled = true
  is_clean other = false

  log_all_lem :
      (logged : List (Severity × Text)) (s : State)
      → log_all env job logged s ≡ record s { lines = s.lines ++ body s.xid logged }
  unfolding log_all jlog
  log_all_lem [] s = rw (append-nil s.lines) refl
  log_all_lem ((severity, message) ∷ rest) s =
      log_all_lem rest (jlog env severity job message s)
      ∙ rw (append_assoc s.lines (line_of env severity job message s.xid ∷ []) (body s.xid rest))
          refl

  started_lem :
      (times fresh : Text) (s : State)
      → s.jobs s.jid ≡ some job
      → before_tcpdump env s.jid times fresh s ≡ record s {
        xid = fresh;
        lines =
            s.lines
            ++ (line_of env info job
                  (codes "execution started ( last execution: " ++ (times ++ codes " )"))
                  s.xid
                ∷ []);
      }
  unfolding before_tcpdump log_started jlog
  started_lem times fresh s e = rw (e, before_tcpdump) refl

  complete_lem :
      (times : Text) (s : State)
      → s.jobs s.jid ≡ some job
      → after_tcpdump env s.jid times s ≡ record s {
        xid = env.nil_id;
        lines =
            s.lines
            ++ (line_of env info job (codes "execution complete") s.xid
                ∷ line_of env info job (codes "next execution: " ++ times) s.xid
                ∷ []);
      }
  unfolding after_tcpdump log_complete jlog
  complete_lem times s e =
      rw (e, after_tcpdump)
        (rw
          (append_assoc s.lines (line_of env info job (codes "execution complete") s.xid ∷ [])
            (line_of env info job (codes "next execution: " ++ times) s.xid ∷ []))
          refl)

  tcpdump_lem :
      (logged : List (Severity × Text)) (reason : Reason) (s : State)
      → s.jobs s.jid ≡ some job
      → is_clean reason ≡ true
      → tcpdump env logged reason s ≡ (record s { lines = s.lines ++ body s.xid logged }, none)
  unfolding tcpdump run_found clean
  tcpdump_lem logged deadline_exceeded s e c = rw (e, tcpdump, log_all_lem logged s) refl
  tcpdump_lem logged canceled s e c = rw (e, tcpdump, log_all_lem logged s) refl
  tcpdump_lem logged other s e c = absurd (ground arith)

  left_lem :
      (o : Option Job) (logged : List (Severity × Text)) (s : State)
      → o ≡ some job
      → log_left env o logged s ≡ record s { lines = s.lines ++ body s.xid logged }
  unfolding log_left
  left_lem none logged s e = absurd (ground (arith, e))
  left_lem (some j) logged s e = ap (λ o. log_left env o logged s) e ∙ log_all_lem logged s

  run-lines_with :
      (r : Run env) (s : State)
      → s.jobs s.jid ≡ some job
      → is_clean r.reason ≡ true
      → run env r s ≡ (record s { xid = env.nil_id; lines = s.lines ++ lines_with s.xid r }, none)
  unfolding run conclude
  run-lines_with r s e c =
      let first = line_of env info job (started_message r.last) s.xid ∷ [] in
      let before : State = record s { xid = r.fresh; lines = s.lines ++ first } in
      let during : State = record before { lines = before.lines ++ body r.fresh r.logged } in
      let concluded : State = record during {
        xid = env.nil_id;
        lines = during.lines ++ last_lines r;
      } in
      rw
        (
          run,
          started_lem r.last r.fresh s e,
          tcpdump_lem r.logged r.reason before e c,
          complete_lem r.following during e,
          left_lem (s.jobs s.jid) r.left_over concluded e,
        )
        (ap (λ (l : List Line). (record s { xid = env.nil_id; lines = l }, none))
          (simp append_assoc))

  -- A scheduled job that is registered, run any number of times, each run ended by its timeout or a
  -- signal: no run returns an error, every line that is written while a run goes on carries the identifier
  -- of that run, but for its first, which has the nil identifier, as the lines between the runs have.
  pub run_all-lines :
      (rs : List (Run env)) (s : State)
      → s.jobs s.jid ≡ some job
      → s.xid ≡ env.nil_id
      → all (λ (r : Run env). is_clean r.reason) rs ≡ true
      → ((run_all env rs s).0.lines ≡ s.lines ++ all_lines rs)
        × ((run_all env rs s).0.xid ≡ env.nil_id)
        × (all is_none (run_all env rs s).1 ≡ true)
  unfolding run_all
  run_all-lines [] s e x c = (sym (append-nil s.lines), x, refl)
  run_all-lines (r ∷ rs) s e x c =
      let s' : State = record s { xid = env.nil_id; lines = s.lines ++ lines_with s.xid r } in
      let first : is_clean r.reason ≡ true = ground arith in
      let (lines, xid, clean) = run_all-lines rs s' e refl (ground arith) in
      rw (run-lines_with r s e first) (
        lines
            ∙ append_assoc s.lines (lines_with s.xid r) (all_lines rs)
            ∙ ap (λ x. s.lines ++ (lines_with x r ++ all_lines rs)) x,
        xid,
        clean,
      )
