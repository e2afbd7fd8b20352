-- ===== src/Sidecar.antt =====
-- The two programs together: `main` of tcpdumpw/main.go and `main` of pcap-fsnotify/main.go, which
-- meet in the file TCPDUMPW_EXITED and in the lock on /var/lock/pcap.lock. Their steps alternate in
-- any order, from the moment that tcpdumpw holds the lock and the watcher watches.
pub mod Flush
use cloud_run_tcpdump.Prelude.{ℕ, ◌≡◌, Bool, true, false, ◌||◌}
use cloud_run_tcpdump.Tcpdumpw.Run as Run
use cloud_run_tcpdump.PcapFsn.Shutdown as Shutdown
use cloud_run_tcpdump.PcapFsn.Shutdown.{
  exit_signal, loop_ends, loop_enters, export_begins, export_ends, event_skipped, loop_closed,
  ticker_enters, ticker_ends, tick_begins, tick_ends, ticker_cancelled, cancelled, joined, signaled,
  timer_fires, lock_fails, lock_held, watched, not_watched, context_done, flushed,
}

-- What the watcher's step waits for from the other program: the creation of the exit signal, and the
-- lock.
abbrev pub Allowed : Run.Sys → {s t : Shutdown.Sys} → Shutdown.Step s t → Type 0
Allowed w (exit_signal a b e) = w.exit_file ≡ true
Allowed w (lock_held a e) = w.is_locked ≡ false
Allowed w (loop_ends a b e) = Unit {0}
Allowed w (loop_enters a b e) = Unit {0}
Allowed w (export_begins a e) = Unit {0}
Allowed w (export_ends a e) = Unit {0}
Allowed w (event_skipped a e) = Unit {0}
Allowed w (loop_closed a b e) = Unit {0}
Allowed w (ticker_enters a b e) = Unit {0}
Allowed w (ticker_ends a b e) = Unit {0}
Allowed w (tick_begins a e) = Unit {0}
Allowed w (tick_ends a e) = Unit {0}
Allowed w (ticker_cancelled a b e) = Unit {0}
Allowed w (cancelled a e) = Unit {0}
Allowed w (joined a b e) = Unit {0}
Allowed w (signaled a e) = Unit {0}
Allowed w (timer_fires a e) = Unit {0}
Allowed w (lock_fails a e) = Unit {0}
Allowed w (watched a b e) = Unit {0}
Allowed w (not_watched a b e) = Unit {0}
Allowed w (context_done a b e) = Unit {0}
Allowed w (flushed a b e) = Unit {0}

-- The step is the one of the timer of three seconds.
abbrev pub fires : {s t : Shutdown.Sys} → Shutdown.Step s t → Bool
fires (timer_fires a e) = true
fires (exit_signal a b e) = false
fires (lock_held a e) = false
fires (loop_ends a b e) = false
fires (loop_enters a b e) = false
fires (export_begins a e) = false
fires (export_ends a e) = false
fires (event_skipped a e) = false
fires (loop_closed a b e) = false
fires (ticker_enters a b e) = false
fires (ticker_ends a b e) = false
fires (tick_begins a e) = false
fires (tick_ends a e) = false
fires (ticker_cancelled a b e) = false
fires (cancelled a e) = false
fires (joined a b e) = false
fires (signaled a e) = false
fires (lock_fails a e) = false
fires (watched a b e) = false
fires (not_watched a b e) = false
fires (context_done a b e) = false
fires (flushed a b e) = false

-- The states of both, and whether the timer has run out.
pub record Both : Type 0 where
  pub wrapper : Run.Sys
  pub watcher : Shutdown.Sys
  pub is_late : Bool

abbrev pub begin : Bool → ℕ → Bool → Both
begin cron tasks has_timeout = record {
  wrapper = Run.launch cron tasks has_timeout;
  watcher = Shutdown.start false;
  is_late = false;
}

pub data Step (b : Both) : Both → Type 0 where
  wrapper_step : {w : Run.Sys} → Run.Step b.wrapper w → Step b (record b { wrapper = w })
  watcher_step :
      {f : Shutdown.Sys} (st : Shutdown.Step b.watcher f)
      → Allowed b.wrapper st
      → Step b (record b { watcher = f; is_late = b.is_late || fires st })

pub data Reach (b : Both) : Both → Type 0 where
  here : Reach b b
  next : {c d : Both} → Reach b c → Step c d → Reach b d
