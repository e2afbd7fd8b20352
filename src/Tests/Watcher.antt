-- ===== src/Tests/Watcher.antt =====
-- The threads of the watcher on concrete ways.
use cloud_run_tcpdump.Prelude.{◌+◌, ◌≤◌, ◌<◌, ◌≡◌, refl, ◌≢◌, ◌↔◌, true, false, arith}
use cloud_run_tcpdump.PcapFsn.Shutdown.{
  Sys, start, Reach, here, next, signaled, timer_fires, watched, not_watched, context_done,
  cancelled, waiting, joining, joined, selecting, working, loop_enters, export_begins, Step, off,
  locking, flushing, armed, unarmed,
}
use cloud_run_tcpdump.PcapFsn.Shutdown.Ends.{Ends, Reach-Ends}
use cloud_run_tcpdump.PcapFsn.Shutdown.Safety.{
  Reach-cancelled, Reach-late_exports, Reach-waits, is_past,
}

-- A signal arrives, the timer fires, and the main thread wakes up.
abbrev pub waited : Sys
waited = record (start false) { main = waiting }

abbrev pub armed_one : Sys
armed_one = record waited { handler = locking; timer = armed }

abbrev fired : Sys
fired = record armed_one { timer = off; is_active = false; pending = 1 }

abbrev called : Sys
called = record fired { pending = 0; cancels = 1 }

abbrev joined_one : Sys
joined_one = record called { main = joining }

abbrev woken : Sys
woken = record joined_one { main = flushing }

woken-Reach : Reach (start false) woken
woken-Reach =
    next
      (next
        (next
          (next (next (next here (watched refl refl refl)) (signaled refl refl))
            (timer_fires refl refl))
          (cancelled (omega arith) refl))
        (context_done refl (omega arith) refl))
      (joined refl (λ e. ground (arith, e)) refl)

-- The loop over events had passed its test before the timer fired; a file comes behind the wait for the
-- exports, and its export overlaps the flush.
abbrev listening : Sys
listening = record armed_one { loop = selecting }

abbrev unheard : Sys
unheard = record listening { timer = off; is_active = false; pending = 1 }

abbrev unheard_called : Sys
unheard_called = record unheard { pending = 0; cancels = 1 }

abbrev unheard_joining : Sys
unheard_joining = record unheard_called { main = joining }

abbrev unheard_flushing : Sys
unheard_flushing = record unheard_called { main = flushing }

abbrev overlapping : Sys
overlapping = record unheard_flushing { loop = working; late_exports = 1 }

overlapping-Reach : Reach (start false) overlapping
overlapping-Reach =
    next
      (next
        (next
          (next
            (next (next (next (next here (watched refl refl refl)) (signaled refl refl)) enters)
              fires_late)
            calls)
          wakes)
        joins)
      begins
  where
    enters : Step armed_one listening
    enters = loop_enters refl refl refl

    fires_late : Step listening unheard
    fires_late = timer_fires refl refl

    calls : Step unheard unheard_called
    calls = cancelled (omega arith) refl

    wakes : Step unheard_called unheard_joining
    wakes = context_done refl (omega arith) refl

    joins : Step unheard_joining unheard_flushing
    joins = joined refl (λ e. ground (arith, e)) refl

    begins : Step unheard_flushing overlapping
    begins = export_begins refl refl

Reach-late_exports_example :
    (overlapping.late_exports ≤ 1)
    × (overlapping.main ≡ flushing → overlapping.loop ≡ working → overlapping.late_exports ≡ 1)
    × (overlapping.loop ≡ selecting → overlapping.late_exports ≡ 0)
Reach-late_exports_example = Reach-late_exports overlapping-Reach

Reach-cancelled_example :
    (woken.cancels + woken.pending ≤ 1)
    × ((0 < woken.cancels + woken.pending) ↔ (woken.is_active ≡ false))
    × (woken.timer ≡ off → woken.is_active ≡ false)
    × (is_past woken.main ≡ true → 0 < woken.cancels)
Reach-cancelled_example = Reach-cancelled woken-Reach

-- The directory cannot be watched, and a signal does not help.
abbrev deaf : Sys
deaf = record (start true) { main = waiting; handler = locking; timer = off }

deaf-Reach : Reach (start true) deaf
deaf-Reach =
    next (next (next here (not_watched refl refl refl)) (signaled refl refl))
      (timer_fires refl refl)

Reach-waits_example : (deaf.cancels ≡ 0) × (is_past deaf.main ≡ false)
Reach-waits_example = Reach-waits deaf-Reach

-- The signal has come, the timer has not fired yet.
pub armed-Reach : Reach (start false) armed_one
armed-Reach = next (next here (watched refl refl refl)) (signaled refl refl)

timer_is_set : armed ≢ unarmed
timer_is_set e = ground (arith, e)

Reach-Ends_example : Ends armed_one
Reach-Ends_example = Reach-Ends armed-Reach timer_is_set
