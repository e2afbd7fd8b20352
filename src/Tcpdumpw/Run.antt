-- ===== src/Tcpdumpw/Run.antt =====
-- The threads of `main` in tcpdumpw/main.go, from the moment that the lock on the PCAP file is held
-- and the tasks are known: `start` with `waitJobDone`, `waitDone`, the handler of signals,
-- `startTCPListener`, and with `use_cron` the scheduler with its job. Each constructor of `Step` is one
-- atomic action; the order of actions is open. Engines may end at any time, or never. A dial
-- to the listener of this process, once it listens, succeeds.
pub mod Safety
pub mod Exits
use cloud_run_tcpdump.Prelude.{
  if◌then◌else◌, ℕ, ◌+◌, ◌-◌, ◌<◌, ◌≡◌, ◌≢◌, Bool, true, false, not, ◌&&◌, ◌||◌,
}

-- The main thread waits for its context, waits for the tasks until a deadline or shuts the scheduler
-- down, waits for the tasks without a deadline, closes the writers, creates the exit signal, unlocks
-- the file, waits for the listener, and ends. It is aborted where another thread ends the process.
pub data MainPc : Type 0 where
  capturing stopping waiting closing signaling unlocking joining exited aborted : MainPc

pub data Listener : Type 0 where
  binding checking accepting stopped failed : Listener

pub data Handler : Type 0 where
  waiting dialing done : Handler

-- The job of the scheduler: between runs, in `start`, and in its `waitJobDone`.
pub data Job : Type 0 where
  idle active leaving : Job

-- `use_cron`, the number of tasks, whether there is a timeout; the counter of `wg`, whether `cancel()`
-- was called and whether the timeout of `start` is over, whether the writers are closed, the exit
-- signal was created and the file is locked, and where the threads are; and how many goroutines of
-- `waitJobDone` were left by a wait that timed out, and have not sent all their deadlines.
pub record Sys : Type 0 where
  pub use_cron : Bool
  pub tasks : ℕ
  pub has_timeout : Bool
  pub running : ℕ
  pub is_cancelled : Bool
  pub is_expired : Bool
  pub are_closed : Bool
  pub exit_file : Bool
  pub is_locked : Bool
  pub main : MainPc
  pub listener : Listener
  pub handler : Handler
  pub job : Job
  pub senders : ℕ

-- Without `use_cron` the main thread has started all tasks; with it the scheduler was started.
abbrev pub launch : Bool → ℕ → Bool → Sys
launch cron tasks has_timeout = record {
  use_cron = cron;
  tasks = tasks;
  has_timeout = has_timeout;
  running = if cron then 0 else tasks;
  is_cancelled = false;
  is_expired = false;
  are_closed = false;
  exit_file = false;
  is_locked = true;
  main = capturing;
  listener = binding;
  handler = Handler.waiting;
  job = idle;
  senders = 0;
}

-- A blocked `Accept` returns for a connection.
abbrev pub connected : Listener → Listener
connected accepting = checking
connected checking = checking
connected stopped = stopped
connected binding = binding
connected failed = failed

-- The scheduler is not shut down yet.
abbrev pub is_scheduling : MainPc → Bool
is_scheduling capturing = true
is_scheduling stopping = true
is_scheduling MainPc.waiting = false
is_scheduling closing = false
is_scheduling signaling = false
is_scheduling unlocking = false
is_scheduling joining = false
is_scheduling exited = false
is_scheduling aborted = false

pub data Step (s t : Sys) : Type 0 where
  -- A signal arrives, and `cancel()` is called.
  signaled :
      s.handler ≡ Handler.waiting
      → t ≡ record s { handler = dialing; is_cancelled = true }
      → Step s t
  dialed :
      s.handler ≡ dialing
      → t ≡ record s { handler = done; listener = connected s.listener }
      → Step s t
  -- `net.Listen`. Where it fails, the process ends with code 5, which releases its lock.
  listens : s.listener ≡ binding → t ≡ record s { listener = checking } → Step s t
  listen_fails :
      s.listener ≡ binding
      → t ≡ record s { listener = failed; main = aborted; is_locked = false }
      → Step s t
  -- The test of `ctx.Done()` in the listener, and a connection from outside.
  accepts :
      s.listener ≡ checking
      → s.is_cancelled ≡ false
      → t ≡ record s { listener = accepting }
      → Step s t
  stops_listening :
      s.listener ≡ checking → s.is_cancelled ≡ true → t ≡ record s { listener = stopped } → Step s t
  accepted : t ≡ record s { listener = connected s.listener } → Step s t
  -- `wg.Done()` of a task.
  task_ends : 0 < s.running → t ≡ record s { running = s.running - 1 } → Step s t
  -- The timeout of `start`.
  expires : s.has_timeout ≡ true → t ≡ record s { is_expired = true } → Step s t
  -- `<-ctx.Done()`, in `start` without the scheduler, and in `main` with it.
  context_done :
      s.main ≡ capturing
      → (s.is_cancelled || (s.is_expired && not s.use_cron)) ≡ true
      → t ≡ record s { main = stopping }
      → Step s t
  -- The two cases of the `select` in `waitJobDone`, and the closing of `stopDeadline`.
  timed_out :
      s.main ≡ stopping
      → s.use_cron ≡ false
      → t ≡ record s { main = MainPc.waiting; senders = s.senders + 1 }
      → Step s t
  job_done :
      s.main ≡ stopping
      → s.use_cron ≡ false
      → s.running ≡ 0
      → t ≡ record s { main = MainPc.waiting }
      → Step s t
  -- The scheduler is shut down: no run begins behind that.
  scheduler_stopped :
      s.main ≡ stopping → s.use_cron ≡ true → t ≡ record s { main = MainPc.waiting } → Step s t
  -- A run of the job, one at a time: its `start`, and its `waitJobDone`, which a deadline may end
  -- with tasks that still run.
  job_starts :
      s.use_cron ≡ true
      → is_scheduling s.main ≡ true
      → s.job ≡ idle
      → t ≡ record s { job = active; running = s.running + s.tasks; is_expired = false }
      → Step s t
  job_context_done :
      s.job ≡ active
      → (s.is_cancelled || s.is_expired) ≡ true
      → t ≡ record s { job = leaving }
      → Step s t
  job_timed_out : s.job ≡ leaving → t ≡ record s { job = idle; senders = s.senders + 1 } → Step s t
  job_returns : s.job ≡ leaving → s.running ≡ 0 → t ≡ record s { job = idle } → Step s t
  -- A goroutine that was left has sent all its deadlines, or sends one on the closed channel, which
  -- ends the process.
  all_sent : 0 < s.senders → t ≡ record s { senders = s.senders - 1 } → Step s t
  send_panics :
      0 < s.senders
      → s.main ≢ exited
      → t ≡ record s { main = aborted; is_locked = false }
      → Step s t
  -- `waitDone`, from `wg.Wait()` on.
  all_done : s.main ≡ MainPc.waiting → s.running ≡ 0 → t ≡ record s { main = closing } → Step s t
  writers_closed :
      s.main ≡ closing → t ≡ record s { main = signaling; are_closed = true } → Step s t
  exit_signaled :
      s.main ≡ signaling → t ≡ record s { main = unlocking; exit_file = true } → Step s t
  exit_signal_fails : s.main ≡ signaling → t ≡ record s { main = unlocking } → Step s t
  unlocked : s.main ≡ unlocking → t ≡ record s { main = joining; is_locked = false } → Step s t
  unlock_fails : s.main ≡ unlocking → t ≡ record s { main = joining } → Step s t
  -- `<-tcpStopChannel`, and the end of the process, which releases its locks.
  joined :
      s.main ≡ joining
      → s.listener ≡ stopped
      → t ≡ record s { main = exited; is_locked = false }
      → Step s t

pub data Reach (s : Sys) : Sys → Type 0 where
  here : Reach s s
  next : {t u : Sys} → Reach s t → Step t u → Reach s u
