-- ===== src/Tests/Deadline.antt =====
-- The end of a capture with one task on concrete ways.
use cloud_run_tcpdump.Prelude.{All, length, ◌+◌, ◌≤◌, ◌<◌, ◌≡◌, refl, [], ◌∷◌, arith, ℕ}
use cloud_run_tcpdump.Tcpdumpw.Main.{is_positive}
use cloud_run_tcpdump.Tcpdumpw.Deadline.{
  two_seconds, wait_of, sub64, TaskDeadline, arming, selecting, closed, computing, holding,
  panicked, Sys, begin, time_passes, measures, arms, computes, sends, send_panics, timed_out,
  closes, Reach, here, next,
}
use cloud_run_tcpdump.Tcpdumpw.Deadline.Safety.{Reach-sends}
use cloud_run_tcpdump.Tcpdumpw.Deadline.Sent.{IsDeadline, Reach-deadlines}
use cloud_run_tcpdump.Tcpdumpw.Deadline.Returns.{Returns, Reach-Returns}

-- Half a second passes until the wait is computed, and again until the deadline of the task is.
abbrev late : Sys
late = record (begin 1 1) { now = 500000000 }

abbrev measured : Sys
measured = record late { main = arming; measured = 500000000; max_wait = 1500000000 }

abbrev timed : Sys
timed = record measured { main = selecting; armed = 500000000; sender = computing 1 }

abbrev slow : Sys
slow = record timed { now = 1000000000 }

abbrev deadline : TaskDeadline
deadline = record { bits = 500000000; at = 1000000000 }

abbrev ready : Sys
ready = record slow { sender = holding deadline 0 }

abbrev sent : Sys
sent = record ready { sender = computing 0; sent = deadline ∷ [] }

ready-Reach : Reach (begin 1 1) ready
unfolding sub64
ready-Reach =
    next
      (next
        (next (next (next here (time_passes 500000000 refl)) (measures refl refl)) (arms refl refl))
        (time_passes 500000000 refl))
      (computes 0 refl refl)

sent-Reach : Reach (begin 1 1) sent
sent-Reach = next ready-Reach (sends deadline 0 refl (λ e. ground (arith, e)) (omega arith) refl)

Reach-deadlines_example : All (IsDeadline 500000000) (deadline ∷ [])
Reach-deadlines_example = Reach-deadlines sent-Reach (omega arith)

Reach-Returns_example : Returns sent
Reach-Returns_example = Reach-Returns sent-Reach (omega arith)

-- The goroutine gets no turn until the timer ran out and the channel is closed.
abbrev over : Sys
over = record ready { now = 2000000000 }

abbrev gone : Sys
gone = record over { main = closed }

abbrev crashed : Sys
crashed = record gone { sender = panicked }

crashed-Reach : Reach (begin 1 1) crashed
unfolding wait_of is_positive
crashed-Reach =
    next
      (next
        (next (next ready-Reach (time_passes 1000000000 refl)) (timed_out refl (omega arith) refl))
        (closes refl refl))
      (send_panics deadline 0 refl refl refl)

Reach-sends_example :
    ((d : TaskDeadline) (k : ℕ)
      → crashed.sender ≡ holding d k
      → length crashed.sent < crashed.taken + crashed.tasks)
    × (crashed.sender ≡ panicked
        → (two_seconds ≤ crashed.now)
          × (crashed.main ≡ closed)
          × (length crashed.sent < crashed.tasks))
    × (crashed.main ≡ closed
        → crashed.now < two_seconds
        → (length crashed.sent ≡ crashed.tasks) × (crashed.running ≡ 0))
Reach-sends_example = Reach-sends crashed-Reach
