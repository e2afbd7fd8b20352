-- ===== src/PcapFsn/Shutdown/Safety.antt =====
-- What holds in every reachable state.
use cloud_run_tcpdump.Prelude.{if◌then◌else◌, ℕ, ◌+◌, ◌≤◌, ◌<◌, ◌≡◌, ◌↔◌, Bool, true, false, arith}
use cloud_run_tcpdump.PcapFsn.Shutdown.{
  MainPc, checking, waiting, joining, flushing, ended, selecting, working, off, Sys, start, Step,
  exit_signal, loop_ends, loop_enters, export_begins, export_ends, event_skipped, loop_closed,
  ticker_enters, ticker_ends, tick_begins, tick_ends, ticker_cancelled, cancelled, joined, signaled,
  timer_fires, lock_fails, lock_held, watched, not_watched, context_done, flushed, Reach, here,
  next,
}

abbrev active_count : Sys → ℕ
active_count s = if s.is_active then 1 else 0

-- The main thread is past its wait.
abbrev pub is_past : MainPc → Bool
is_past checking = false
is_past waiting = false
is_past joining = true
is_past flushing = true
is_past ended = true

-- Where the directory is watched.
pub record Inv (s : Sys) : Type 0 where
  pub watch : s.watch_failed ≡ false
  pub once : s.cancels + s.pending + active_count s ≡ 1
  pub timed : s.timer ≡ off → s.is_active ≡ false
  pub past : is_past s.main ≡ true → 0 < s.cancels
  pub late : s.late_exports ≤ 1
  pub early : s.is_active ≡ true → s.late_exports ≡ 0
  pub overlap : s.main ≡ flushing → s.loop ≡ working → s.late_exports ≡ 1
  pub last : s.loop ≡ selecting → s.late_exports ≡ 0

pub Step-Inv : {s t : Sys} → Step s t → Inv s → Inv t
Step-Inv (exit_signal a b e) inv = ground arith
Step-Inv (loop_ends a b e) inv = ground arith
Step-Inv (loop_enters a b e) inv = ground arith
Step-Inv (export_begins a e) inv = ground arith
Step-Inv (export_ends a e) inv = ground arith
Step-Inv (event_skipped a e) inv = ground arith
Step-Inv (loop_closed a b e) inv = ground arith
Step-Inv (ticker_enters a b e) inv = ground arith
Step-Inv (ticker_ends a b e) inv = ground arith
Step-Inv (tick_begins a e) inv = ground arith
Step-Inv (tick_ends a e) inv = ground arith
Step-Inv (ticker_cancelled a b e) inv = ground arith
Step-Inv (cancelled a e) inv = ground arith
Step-Inv (joined a b e) inv = ground arith
Step-Inv (signaled a e) inv = ground arith
Step-Inv (timer_fires a e) inv = ground arith
Step-Inv (lock_fails a e) inv = ground arith
Step-Inv (lock_held a e) inv = ground arith
Step-Inv (watched a b e) inv = ground arith
Step-Inv (not_watched a b e) inv = ground arith
Step-Inv (context_done a b e) inv = ground arith
Step-Inv (flushed a b e) inv = ground arith

pub Reach-Inv : {s : Sys} → Reach (start false) s → Inv s
Reach-Inv here = ground arith
Reach-Inv (next r st) = Step-Inv st (Reach-Inv r)

-- Where the directory is watched: the context is cancelled at most once, by the one thread that makes
-- the watcher inactive. The watcher is inactive exactly when the context is cancelled or that thread is
-- about to cancel it, and never two threads are. When the timer has fired or was stopped, the watcher is
-- inactive; and when the main thread has stopped waiting, the context is cancelled.
pub Reach-cancelled :
    {s : Sys}
    → Reach (start false) s
    → (s.cancels + s.pending ≤ 1)
      × ((0 < s.cancels + s.pending) ↔ (s.is_active ≡ false))
      × (s.timer ≡ off → s.is_active ≡ false)
      × (is_past s.main ≡ true → 0 < s.cancels)
Reach-cancelled {s} r =
    let inv = Reach-Inv r in
    (ground (arith, inv), (λ h. ground (arith, inv), λ h. ground (arith, inv)), inv.timed, inv.past)

-- Where the directory is watched: at most one regular export begins when the watcher is no longer
-- active, none has where the loop waits for an event, and a regular export that goes on
-- during the last flush is that one.
pub Reach-late_exports :
    {s : Sys}
    → Reach (start false) s
    → (s.late_exports ≤ 1)
      × (s.main ≡ flushing → s.loop ≡ working → s.late_exports ≡ 1)
      × (s.loop ≡ selecting → s.late_exports ≡ 0)
Reach-late_exports {s} r = let inv = Reach-Inv r in (inv.late, inv.overlap, inv.last)

record Stuck (s : Sys) : Type 0 where
  failed : s.watch_failed ≡ true
  inactive : s.is_active ≡ false
  none_pending : s.pending ≡ 0
  never : s.cancels ≡ 0
  waits : is_past s.main ≡ false

Step-Stuck : {s t : Sys} → Step s t → Stuck s → Stuck t
Step-Stuck (exit_signal a b e) inv = ground arith
Step-Stuck (loop_ends a b e) inv = ground arith
Step-Stuck (loop_enters a b e) inv = ground arith
Step-Stuck (export_begins a e) inv = ground arith
Step-Stuck (export_ends a e) inv = ground arith
Step-Stuck (event_skipped a e) inv = ground arith
Step-Stuck (loop_closed a b e) inv = ground arith
Step-Stuck (ticker_enters a b e) inv = ground arith
Step-Stuck (ticker_ends a b e) inv = ground arith
Step-Stuck (tick_begins a e) inv = ground arith
Step-Stuck (tick_ends a e) inv = ground arith
Step-Stuck (ticker_cancelled a b e) inv = ground arith
Step-Stuck (cancelled a e) inv = ground arith
Step-Stuck (joined a b e) inv = ground arith
Step-Stuck (signaled a e) inv = ground arith
Step-Stuck (timer_fires a e) inv = ground arith
Step-Stuck (lock_fails a e) inv = ground arith
Step-Stuck (lock_held a e) inv = ground arith
Step-Stuck (watched a b e) inv = ground arith
Step-Stuck (not_watched a b e) inv = ground arith
Step-Stuck (context_done a b e) inv = ground arith
Step-Stuck (flushed a b e) inv = ground arith

Reach-Stuck : {s : Sys} → Reach (start true) s → Stuck s
Reach-Stuck here = ground arith
Reach-Stuck (next r st) = Step-Stuck st (Reach-Stuck r)

-- Where the directory cannot be watched, the context is never cancelled, whatever signals arrive, and
-- the main thread never stops waiting and never flushes.
pub Reach-waits : {s : Sys} → Reach (start true) s → (s.cancels ≡ 0) × (is_past s.main ≡ false)
Reach-waits r = let stuck = Reach-Stuck r in (stuck.never, stuck.waits)
