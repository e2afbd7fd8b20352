-- ===== src/Tcpdumpw/Run/Safety.antt =====
-- What holds in every reachable state.
use cloud_run_tcpdump.Prelude.{ℕ, ◌≡◌, ◌≢◌, ◌↔◌, ◌⊎◌, inl, inr, Bool, true, false, arith}
use cloud_run_tcpdump.Tcpdumpw.Run.{
  Reach, here, next, MainPc, capturing, stopping, closing, signaling, unlocking, joining, exited,
  aborted, failed, listens, listen_fails, accepting, stopped, Handler, done, Sys, launch, Step,
  signaled, dialed, accepts, stops_listening, accepted, task_ends, expires, context_done, timed_out,
  job_done, scheduler_stopped, job_starts, job_context_done, job_timed_out, job_returns, all_sent,
  send_panics, all_done, writers_closed, exit_signaled, exit_signal_fails, unlocked, unlock_fails,
  joined,
}

-- The main thread is past its wait for the tasks, and past the writers.
abbrev pub is_past_tasks : MainPc → Bool
is_past_tasks capturing = false
is_past_tasks stopping = false
is_past_tasks MainPc.waiting = false
is_past_tasks closing = true
is_past_tasks signaling = true
is_past_tasks unlocking = true
is_past_tasks joining = true
is_past_tasks exited = true
is_past_tasks aborted = false

abbrev pub is_past_writers : MainPc → Bool
is_past_writers capturing = false
is_past_writers stopping = false
is_past_writers MainPc.waiting = false
is_past_writers closing = false
is_past_writers signaling = true
is_past_writers unlocking = true
is_past_writers joining = true
is_past_writers exited = true
is_past_writers aborted = false

past_tasks : (m : MainPc) → is_past_writers m ≡ true → is_past_tasks m ≡ true
past_tasks m h = ground arith

pub record Inv (s : Sys) : Type 0 where
  pub ended : is_past_tasks s.main ≡ true → s.running ≡ 0
  pub closed : is_past_writers s.main ≡ true → s.are_closed ≡ true
  pub signal : s.main ≢ aborted → s.exit_file ≡ true → is_past_writers s.main ≡ true
  pub lock : s.main ≢ aborted → s.is_locked ≡ false → is_past_writers s.main ≡ true
  pub fail : s.listener ≡ failed → s.main ≡ aborted
  pub stop : s.listener ≡ stopped → s.is_cancelled ≡ true
  pub cancel : (s.is_cancelled ≡ true) ↔ (s.handler ≢ Handler.waiting)
  pub exit : s.main ≡ exited → s.listener ≡ stopped
  pub dial : s.listener ≡ accepting → s.handler ≢ done

pub Step-Inv : {s t : Sys} → Step s t → Inv s → Inv t
Step-Inv (signaled a e) inv = ground arith
Step-Inv (dialed a e) inv = ground arith
Step-Inv (listens a e) inv = ground arith
Step-Inv (listen_fails a e) inv = ground arith
Step-Inv (accepts a b e) inv = ground arith
Step-Inv (stops_listening a b e) inv = ground arith
Step-Inv (accepted e) inv = ground arith
Step-Inv (task_ends a e) inv = ground arith
Step-Inv (expires a e) inv = ground arith
Step-Inv (context_done a b e) inv = ground arith
Step-Inv (timed_out a b e) inv = ground arith
Step-Inv (job_done a b c e) inv = ground arith
Step-Inv (scheduler_stopped a b e) inv = ground arith
Step-Inv (job_starts a b c e) inv = ground arith
Step-Inv (job_context_done a b e) inv = ground arith
Step-Inv (job_timed_out a e) inv = ground arith
Step-Inv (job_returns a b e) inv = ground arith
Step-Inv (all_sent a e) inv = ground arith
Step-Inv (send_panics a b e) inv = ground arith
Step-Inv (all_done a b e) inv = ground arith
Step-Inv (writers_closed a e) inv = ground arith
Step-Inv (exit_signaled a e) inv = ground arith
Step-Inv (exit_signal_fails a e) inv = ground arith
Step-Inv (unlocked a e) inv = ground arith
Step-Inv (unlock_fails a e) inv = ground arith
Step-Inv (joined a b e) inv = ground arith

pub launch-Inv :
    (cron : Bool) (tasks : ℕ) (has_timeout : Bool) → Inv (launch cron tasks has_timeout)
launch-Inv cron tasks has_timeout = ground arith

pub Reach-Inv :
    {cron : Bool} {tasks : ℕ} {has_timeout : Bool} {s : Sys}
    → Reach (launch cron tasks has_timeout) s
    → Inv s
Reach-Inv {cron} {tasks} {has_timeout} here = launch-Inv cron tasks has_timeout
Reach-Inv (next r st) = Step-Inv st (Reach-Inv r)

pub Inv-orderly :
    {s : Sys}
    → Inv s
    → s.main ≢ aborted
    → (s.exit_file ≡ true) ⊎ (s.is_locked ≡ false)
    → (s.running ≡ 0) × (s.are_closed ≡ true)
Inv-orderly {s} inv alive h =
    let past : is_past_writers s.main ≡ true = elim h [
      | inl a ↦ inv.signal alive a
      | inr b ↦ inv.lock alive b
    ] in
    (inv.ended (past_tasks s.main past), inv.closed past)

-- In every interleaving of the threads of tcpdumpw, the exit signal is created, and the file unlocked,
-- only when no task runs any more and all writers are closed, with the scheduler or without it, and
-- whatever deadlines have passed; unless the process was ended, by the listener that could not listen
-- or by a deadline that was sent on a closed channel.
pub Reach-orderly :
    {cron : Bool} {tasks : ℕ} {has_timeout : Bool} {s : Sys}
    → Reach (launch cron tasks has_timeout) s
    → s.main ≢ aborted
    → (s.exit_file ≡ true) ⊎ (s.is_locked ≡ false)
    → (s.running ≡ 0) × (s.are_closed ≡ true)
Reach-orderly r alive h = Inv-orderly (Reach-Inv r) alive h

-- The program ends only behind a termination signal: a timeout ends the captures, but then the main
-- thread waits for the listener of health checks, which stops for a signal only.
pub exited-is_cancelled :
    {cron : Bool} {tasks : ℕ} {has_timeout : Bool} {s : Sys}
    → Reach (launch cron tasks has_timeout) s
    → s.main ≡ exited
    → (s.is_cancelled ≡ true) × (s.handler ≢ Handler.waiting)
exited-is_cancelled {s = s} r h =
    let inv = Reach-Inv r in
    let cancelled = inv.stop (inv.exit h) in (cancelled, inv.cancel.0 cancelled)
