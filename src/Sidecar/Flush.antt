-- ===== src/Sidecar/Flush.antt =====
-- When the watcher begins its last flush.
use cloud_run_tcpdump.Prelude.{ℕ, ◌+◌, ◌<◌, ◌≡◌, ◌≢◌, ◌⊎◌, Bool, true, false, not, ◌||◌, arith}
use cloud_run_tcpdump.Tcpdumpw.Run as Run
use cloud_run_tcpdump.Tcpdumpw.Run.Safety as RunSafety
use cloud_run_tcpdump.PcapFsn.Shutdown as Shutdown
use cloud_run_tcpdump.PcapFsn.Shutdown.{
  exit_signal, loop_ends, loop_enters, export_begins, export_ends, event_skipped, loop_closed,
  ticker_enters, ticker_ends, tick_begins, tick_ends, ticker_cancelled, cancelled, joined, signaled,
  timer_fires, lock_fails, lock_held, watched, not_watched, context_done, flushed, flushing, ended,
}
use cloud_run_tcpdump.PcapFsn.Shutdown.Safety as ShutdownSafety
use cloud_run_tcpdump.PcapFsn.Shutdown.{flushing, ended}
use cloud_run_tcpdump.Sidecar.{
  begin, Both, Step, wrapper_step, watcher_step, Reach, here, next, Allowed, fires,
}

-- The wrapper has announced its end.
abbrev announced : Run.Sys → Bool
announced w = w.exit_file || not w.is_locked

cancelled_by :
    (w : Run.Sys) {s t : Shutdown.Sys} (st : Shutdown.Step s t)
    → Allowed w st
    → ShutdownSafety.Inv s
    → s.cancels + s.pending < t.cancels + t.pending
    → (fires st || announced w) ≡ true
cancelled_by w (exit_signal a b e) h inv l = ground arith
cancelled_by w (lock_held a e) h inv l = ground arith
cancelled_by w (timer_fires a e) h inv l = ground arith
cancelled_by w (loop_ends a b e) h inv l = ground arith
cancelled_by w (loop_enters a b e) h inv l = ground arith
cancelled_by w (export_begins a e) h inv l = ground arith
cancelled_by w (export_ends a e) h inv l = ground arith
cancelled_by w (event_skipped a e) h inv l = ground arith
cancelled_by w (loop_closed a b e) h inv l = ground arith
cancelled_by w (ticker_enters a b e) h inv l = ground arith
cancelled_by w (ticker_ends a b e) h inv l = ground arith
cancelled_by w (tick_begins a e) h inv l = ground arith
cancelled_by w (tick_ends a e) h inv l = ground arith
cancelled_by w (ticker_cancelled a b e) h inv l = ground arith
cancelled_by w (cancelled a e) h inv l = ground arith
cancelled_by w (joined a b e) h inv l = ground arith
cancelled_by w (signaled a e) h inv l = ground arith
cancelled_by w (lock_fails a e) h inv l = ground arith
cancelled_by w (watched a b e) h inv l = ground arith
cancelled_by w (not_watched a b e) h inv l = ground arith
cancelled_by w (context_done a b e) h inv l = ground arith
cancelled_by w (flushed a b e) h inv l = ground arith

-- What was announced stays so.
Step-announced : {w w' : Run.Sys} → Run.Step w w' → announced w ≡ true → announced w' ≡ true
Step-announced (Run.signaled a e) h = ground arith
Step-announced (Run.dialed a e) h = ground arith
Step-announced (Run.listens a e) h = ground arith
Step-announced (Run.listen_fails a e) h = ground arith
Step-announced (Run.accepts a b e) h = ground arith
Step-announced (Run.stops_listening a b e) h = ground arith
Step-announced (Run.accepted e) h = ground arith
Step-announced (Run.task_ends a e) h = ground arith
Step-announced (Run.expires a e) h = ground arith
Step-announced (Run.context_done a b e) h = ground arith
Step-announced (Run.timed_out a b e) h = ground arith
Step-announced (Run.job_done a b c e) h = ground arith
Step-announced (Run.scheduler_stopped a b e) h = ground arith
Step-announced (Run.job_starts a b c e) h = ground arith
Step-announced (Run.job_context_done a b e) h = ground arith
Step-announced (Run.job_timed_out a e) h = ground arith
Step-announced (Run.job_returns a b e) h = ground arith
Step-announced (Run.all_sent a e) h = ground arith
Step-announced (Run.send_panics a b e) h = ground arith
Step-announced (Run.all_done a b e) h = ground arith
Step-announced (Run.writers_closed a e) h = ground arith
Step-announced (Run.exit_signaled a e) h = ground arith
Step-announced (Run.exit_signal_fails a e) h = ground arith
Step-announced (Run.unlocked a e) h = ground arith
Step-announced (Run.unlock_fails a e) h = ground arith
Step-announced (Run.joined a b e) h = ground arith

-- Where the watcher is, or is about to be, cancelled, its timer has run out or the wrapper has announced its end.
record Inv (b : Both) : Type 0 where
  runs : RunSafety.Inv b.wrapper
  watches : ShutdownSafety.Inv b.watcher
  reason : 0 < b.watcher.cancels + b.watcher.pending → (b.is_late || announced b.wrapper) ≡ true

Step-Inv : {b c : Both} → Step b c → Inv b → Inv c
Step-Inv (wrapper_step st) inv = record {
  runs = RunSafety.Step-Inv st inv.runs;
  watches = inv.watches;
  reason = λ h. ground (arith, inv.reason h, Step-announced st);
}
Step-Inv {b} (watcher_step st h) inv = record {
  runs = inv.runs;
  watches = ShutdownSafety.Step-Inv st inv.watches;
  reason = λ k. ground (arith, inv.reason, cancelled_by b.wrapper st h inv.watches);
}

Reach-Inv :
    {cron : Bool} {tasks : ℕ} {has_timeout : Bool} {b : Both}
    → Reach (begin cron tasks has_timeout) b
    → Inv b
Reach-Inv {cron} {tasks} {has_timeout} here = record {
  runs = RunSafety.launch-Inv cron tasks has_timeout;
  watches = ShutdownSafety.Reach-Inv Shutdown.here;
  reason = λ h. ground arith;
}
Reach-Inv (next r st) = Step-Inv st (Reach-Inv r)

-- When the watcher flushes the directory, and when it has ended, no capture runs any more and all
-- writers are closed, unless its timer of three seconds ran out first, or the process of tcpdumpw was
-- ended, by its listener that could not listen or by a deadline that was sent on a closed channel; in
-- every interleaving of both programs, from the moment that
-- tcpdumpw holds the lock and the watcher is about to watch.
pub flushing-running :
    {cron : Bool} {tasks : ℕ} {has_timeout : Bool} {b : Both}
    → Reach (begin cron tasks has_timeout) b
    → (b.watcher.main ≡ flushing) ⊎ (b.watcher.main ≡ ended)
    → b.is_late ≡ false
    → b.wrapper.main ≢ Run.aborted
    → (b.wrapper.running ≡ 0) × (b.wrapper.are_closed ≡ true)
flushing-running {b = b} r h punctual alive =
    let inv = Reach-Inv r in
    let past : ShutdownSafety.is_past b.watcher.main ≡ true = ground arith in
    let cancelled_once = inv.watches.past past in
    let told = inv.reason (omega arith) in RunSafety.Inv-orderly inv.runs alive (ground arith)
