-- ===== src/Tests/Threads.antt =====
-- The threads of both programs on concrete ways.
use cloud_run_tcpdump.Prelude.{◌≡◌, refl, ◌≢◌, inl, true, false, arith}
use cloud_run_tcpdump.Tcpdumpw.Run as Run
use cloud_run_tcpdump.Tcpdumpw.Run.Safety.{Reach-orderly}
use cloud_run_tcpdump.Tcpdumpw.Run.Exits.{Exits, Reach-Exits}
use cloud_run_tcpdump.PcapFsn.Shutdown as Shutdown
use cloud_run_tcpdump.Sidecar as Sidecar
use cloud_run_tcpdump.Sidecar.{Both, wrapper_step, watcher_step}
use cloud_run_tcpdump.Sidecar.Flush.{flushing-running}

-- A capture with one task, stopped by a signal.
abbrev begun : Run.Sys
begun = Run.launch false 1 false

abbrev signaled : Run.Sys
signaled = record begun { handler = Run.dialing; is_cancelled = true }

abbrev leaving : Run.Sys
leaving = record signaled { main = Run.stopping }

abbrev late : Run.Sys
late = record leaving { main = Run.MainPc.waiting; senders = 1 }

abbrev quiet : Run.Sys
quiet = record late { running = 0 }

abbrev closing : Run.Sys
closing = record quiet { main = Run.closing }

abbrev closed : Run.Sys
closed = record closing { main = Run.signaling; are_closed = true }

abbrev announced : Run.Sys
announced = record closed { main = Run.unlocking; exit_file = true }

abbrev unlocked : Run.Sys
unlocked = record announced { main = Run.joining; is_locked = false }

abbrev listening : Run.Sys
listening = record unlocked { listener = Run.checking }

abbrev deaf : Run.Sys
deaf = record listening { listener = Run.stopped }

abbrev ended : Run.Sys
ended = record deaf { main = Run.exited }

st1 : Run.Step begun signaled
st1 = Run.signaled refl refl

st2 : Run.Step signaled leaving
st2 = Run.context_done refl refl refl

st3 : Run.Step leaving late
st3 = Run.timed_out refl refl refl

st4 : Run.Step late quiet
st4 = Run.task_ends (omega arith) refl

st5 : Run.Step quiet closing
st5 = Run.all_done refl refl refl

st6 : Run.Step closing closed
st6 = Run.writers_closed refl refl

st7 : Run.Step closed announced
st7 = Run.exit_signaled refl refl

announced-Reach : Run.Reach begun announced
announced-Reach =
    Run.next
      (Run.next (Run.next (Run.next (Run.next (Run.next (Run.next Run.here st1) st2) st3) st4) st5)
        st6)
      st7

st9 : Run.Step unlocked listening
st9 = Run.listens refl refl

ended-Reach : Run.Reach begun ended
ended-Reach =
    Run.next
      (Run.next (Run.next (Run.next announced-Reach (Run.unlocked refl refl)) st9)
        (Run.stops_listening refl refl refl))
      (Run.joined refl refl refl)

not_aborted : announced.main ≢ Run.aborted
not_aborted e = ground arith

Reach-orderly_example : (announced.running ≡ 0) × (announced.are_closed ≡ true)
Reach-orderly_example = Reach-orderly announced-Reach not_aborted (inl refl)

Reach-Exits_example : Exits signaled
Reach-Exits_example = Reach-Exits (Run.next Run.here st1) refl (λ e. ground arith)

-- The watcher sees the exit signal and flushes.
abbrev watching : Shutdown.Sys
watching = record (Shutdown.start false) { main = Shutdown.waiting }

abbrev selecting : Shutdown.Sys
selecting = record watching { loop = Shutdown.selecting }

abbrev told : Shutdown.Sys
told = record selecting { loop = Shutdown.stopped; is_active = false; pending = 1 }

abbrev cancelled : Shutdown.Sys
cancelled = record told { pending = 0; cancels = 1 }

abbrev joining : Shutdown.Sys
joining = record cancelled { main = Shutdown.joining }

abbrev flushing : Shutdown.Sys
flushing = record joining { main = Shutdown.flushing }

abbrev both : Both
both = record { wrapper = announced; watcher = flushing; is_late = false }

-- The wrapper comes to the exit signal first.
abbrev both_announced : Both
both_announced = record { wrapper = announced; watcher = Shutdown.start false; is_late = false }

announced_Both : Sidecar.Reach (Sidecar.begin false 1 false) both_announced
announced_Both =
    Sidecar.next
      (Sidecar.next
        (Sidecar.next
          (Sidecar.next
            (Sidecar.next
              (Sidecar.next (Sidecar.next Sidecar.here (wrapper_step st1)) (wrapper_step st2))
              (wrapper_step st3))
            (wrapper_step st4))
          (wrapper_step st5))
        (wrapper_step st6))
      (wrapper_step st7)

both-Reach : Sidecar.Reach (Sidecar.begin false 1 false) both
both-Reach =
    Sidecar.next
      (Sidecar.next
        (Sidecar.next
          (Sidecar.next
            (Sidecar.next
              (Sidecar.next announced_Both
                (watcher_step {f = watching} (Shutdown.watched refl refl refl) tt))
              (watcher_step {f = selecting} (Shutdown.loop_enters refl refl refl) tt))
            (watcher_step {f = told} (Shutdown.exit_signal refl refl refl) refl))
          (watcher_step {f = cancelled} (Shutdown.cancelled (omega arith) refl) tt))
        (watcher_step {f = joining} (Shutdown.context_done refl (omega arith) refl) tt))
      (watcher_step {f = flushing} (Shutdown.joined refl (λ e. ground (arith, e)) refl) tt)

flushing-running_example : (announced.running ≡ 0) × (announced.are_closed ≡ true)
flushing-running_example = flushing-running both-Reach (inl refl) refl not_aborted

-- A goroutine that was left sends on the closed channel: the lock is free, but a task runs and the
-- writers are open.
abbrev killed : Run.Sys
killed = record late { main = Run.aborted; is_locked = false }

killed-Reach : Run.Reach begun killed
killed-Reach =
    Run.next (Run.next (Run.next (Run.next Run.here st1) st2) st3)
      (Run.send_panics (omega arith) (λ e. ground (arith, e)) refl)

killed_run : (killed.running ≡ 1) × (killed.are_closed ≡ false)
killed_run = (refl, refl)
