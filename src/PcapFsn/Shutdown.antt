-- ===== src/PcapFsn/Shutdown.antt =====
-- The threads of `main` in pcap-fsnotify/main.go, from the watch on: the loop over file events, the
-- loop over ticks, the handler of termination signals with its timer, and the main thread that waits
-- for the context, joins the regular exports, and flushes. Each constructor of `Step` is one atomic
-- action; the order of actions is open. Between a swap of `isActive` and the `cancel()` behind it any
-- other actions may come.
use cloud_run_tcpdump.Prelude.{if◌then◌else◌, ℕ, ◌+◌, ◌-◌, ◌<◌, ◌≡◌, ◌≢◌, Bool, true, false, not}
use cloud_run_tcpdump.Text.{failed}
pub mod Safety
pub mod Ends

pub data MainPc : Type 0 where
  checking waiting joining flushing ended : MainPc

-- A loop tests `isActive`, waits in its `select`, works, or has ended. The loop over events works in
-- `exportPcapFile`, the one over ticks in `flushBuffers`.
pub data LoopPc : Type 0 where
  testing selecting working stopped : LoopPc

pub data HandlerPc : Type 0 where
  idle locking done : HandlerPc

pub data Timer : Type 0 where
  unarmed armed off : Timer

-- `err` of `watcher.Add`, `isActive`, how many threads have swapped `isActive` and not called `cancel()`
-- yet, how often `cancel()` was called, where the threads are otherwise, and how many regular exports began when the watcher was no longer active.
pub record Sys : Type 0 where
  pub watch_failed : Bool
  pub is_active : Bool
  pub pending : ℕ
  pub cancels : ℕ
  pub loop : LoopPc
  pub ticker : LoopPc
  pub late_exports : ℕ
  pub handler : HandlerPc
  pub timer : Timer
  pub main : MainPc

-- `isActive` is set before the directory is watched, and reset if that fails.
abbrev pub start : Bool → Sys
start failed = record {
  watch_failed = failed;
  is_active = not failed;
  pending = 0;
  cancels = 0;
  loop = testing;
  ticker = testing;
  late_exports = 0;
  handler = idle;
  timer = unarmed;
  main = checking;
}

-- `isActive.CompareAndSwap(true, false)`; where it succeeds, the thread will call `cancel()`.
abbrev pub deactivate : Sys → Sys
deactivate s = record s {
  is_active = false;
  pending = if s.is_active then s.pending + 1 else s.pending;
}

-- The watcher of the directory is closed.
abbrev pub is_closed : MainPc → Bool
is_closed checking = false
is_closed waiting = false
is_closed joining = true
is_closed flushing = true
is_closed ended = true

pub data Step (s t : Sys) : Type 0 where
  -- The loop over events.
  loop_enters : s.loop ≡ testing → s.is_active ≡ true → t ≡ record s { loop = selecting } → Step s t
  loop_ends : s.loop ≡ testing → s.is_active ≡ false → t ≡ record s { loop = stopped } → Step s t
  -- A new file, with `wg.Add(1)`; the call of `exportPcapFile` ends with `wg.Done()`.
  export_begins :
      s.loop ≡ selecting
      → t ≡ record s {
        loop = working;
        late_exports = if s.is_active then s.late_exports else s.late_exports + 1;
      }
      → Step s t
  export_ends : s.loop ≡ working → t ≡ record s { loop = testing } → Step s t
  -- Any other event, and an error of the watcher.
  event_skipped : s.loop ≡ selecting → t ≡ record s { loop = testing } → Step s t
  -- The exit signal of tcpdumpw, while the watcher is active.
  exit_signal :
      s.loop ≡ selecting
      → s.is_active ≡ true
      → t ≡ record (deactivate s) { loop = stopped }
      → Step s t
  -- A closed channel.
  loop_closed :
      s.loop ≡ selecting → is_closed s.main ≡ true → t ≡ record s { loop = stopped } → Step s t
  -- The `cancel()` of a thread whose swap succeeded.
  cancelled :
      0 < s.pending → t ≡ record s { pending = s.pending - 1; cancels = s.cancels + 1 } → Step s t
  -- The loop over ticks.
  ticker_enters :
      s.ticker ≡ testing → s.is_active ≡ true → t ≡ record s { ticker = selecting } → Step s t
  ticker_ends :
      s.ticker ≡ testing → s.is_active ≡ false → t ≡ record s { ticker = stopped } → Step s t
  tick_begins : s.ticker ≡ selecting → t ≡ record s { ticker = working } → Step s t
  tick_ends : s.ticker ≡ working → t ≡ record s { ticker = testing } → Step s t
  ticker_cancelled :
      s.ticker ≡ selecting → 0 < s.cancels → t ≡ record s { ticker = stopped } → Step s t
  -- A termination signal arms the timer, and the handler tries to lock the file.
  signaled : s.handler ≡ idle → t ≡ record s { handler = locking; timer = armed } → Step s t
  timer_fires : s.timer ≡ armed → t ≡ record (deactivate s) { timer = off } → Step s t
  lock_fails : s.handler ≡ locking → t ≡ record s { handler = done } → Step s t
  -- The lock is held: the timer is stopped if the watcher was still active.
  lock_held :
      s.handler ≡ locking
      → t ≡ record (deactivate s) { handler = done; timer = if s.is_active then off else s.timer }
      → Step s t
  -- The test of `err` behind the start of the threads.
  watched : s.main ≡ checking → s.watch_failed ≡ false → t ≡ record s { main = waiting } → Step s t
  not_watched :
      s.main ≡ checking
      → s.watch_failed ≡ true
      → t ≡ record (deactivate s) { main = waiting }
      → Step s t
  -- `<-ctx.Done()`; the ticker is stopped and the watcher is closed.
  context_done : s.main ≡ waiting → 0 < s.cancels → t ≡ record s { main = joining } → Step s t
  -- Both waits for the exports, before and behind `flushSrcDir`.
  joined : s.main ≡ joining → s.loop ≢ working → t ≡ record s { main = flushing } → Step s t
  flushed : s.main ≡ flushing → s.loop ≢ working → t ≡ record s { main = ended } → Step s t

pub data Reach (s : Sys) : Sys → Type 0 where
  here : Reach s s
  next : {t u : Sys} → Reach s t → Step t u → Reach s u
