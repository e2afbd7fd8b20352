-- ===== src/Tcpdumpw/Run/Exits.antt =====
-- The way to the end of the program.
use cloud_run_tcpdump.Prelude.{
  Bool-cases, ℕ, zero, suc, ◌+◌, ◌-◌, ◌≡◌, refl, ap, ◌≢◌, inl, inr, Bool, true, false, arith,
}
use cloud_run_tcpdump.Tcpdumpw.Run.{
  MainPc, capturing, stopping, closing, signaling, unlocking, joining, exited, aborted, failed,
  binding, listens, listen_fails, Listener, checking, accepting, stopped, Handler, dialing, done,
  Sys, launch, connected, Step, Reach, signaled, dialed, accepts, stops_listening, accepted,
  task_ends, expires, context_done, timed_out, job_done, scheduler_stopped, job_starts,
  job_context_done, job_timed_out, job_returns, all_sent, send_panics, all_done, writers_closed,
  exit_signaled, exit_signal_fails, unlocked, unlock_fails, joined,
}
use cloud_run_tcpdump.Tcpdumpw.Run.Safety.{Inv, Reach-Inv}

-- The step is a connection to the listener from outside.
abbrev pub is_outside : {s t : Sys} → Step s t → Bool
is_outside (accepted e) = true
is_outside (signaled a e) = false
is_outside (dialed a e) = false
is_outside (listens a e) = false
is_outside (listen_fails a e) = false
is_outside (accepts a b e) = false
is_outside (stops_listening a b e) = false
is_outside (task_ends a e) = false
is_outside (expires a e) = false
is_outside (context_done a b e) = false
is_outside (timed_out a b e) = false
is_outside (job_done a b c e) = false
is_outside (scheduler_stopped a b e) = false
is_outside (job_starts a b c e) = false
is_outside (job_context_done a b e) = false
is_outside (job_timed_out a e) = false
is_outside (job_returns a b e) = false
is_outside (all_sent a e) = false
is_outside (send_panics a b e) = false
is_outside (all_done a b e) = false
is_outside (writers_closed a e) = false
is_outside (exit_signaled a e) = false
is_outside (exit_signal_fails a e) = false
is_outside (unlocked a e) = false
is_outside (unlock_fails a e) = false
is_outside (joined a b e) = false

-- A way without such steps.
pub data Alone : Sys → Sys → Type 0 where
  arrived : {s : Sys} → Alone s s
  first : {s t u : Sys} (st : Step s t) → is_outside st ≡ false → Alone t u → Alone s u

-- A state in which the program has ended, to which there is a way that waits for no connection from
-- outside.
abbrev pub Exits : Sys → Type 0
Exits s = (t : Sys) × (Alone s t) × (t.main ≡ exited)

Exits-prepend : {s t : Sys} (st : Step s t) → is_outside st ≡ false → Exits t → Exits s
Exits-prepend st own (t, r, e) = (t, first st own r, e)

module _ (s : Sys) (quiet : s.listener ≡ stopped) where
  from_joining : s.main ≡ joining → Exits s
  from_joining e = (
    record s { main = exited; is_locked = false },
    first (joined e quiet refl) refl arrived,
    refl,
  )

from_unlocking : (s : Sys) → s.listener ≡ stopped → s.main ≡ unlocking → Exits s
from_unlocking s quiet e =
    let t : Sys = record s { main = joining; is_locked = false } in
    let st : Step s t = unlocked e refl in Exits-prepend st refl (from_joining t quiet refl)

from_signaling : (s : Sys) → s.listener ≡ stopped → s.main ≡ signaling → Exits s
from_signaling s quiet e =
    let t : Sys = record s { main = unlocking; exit_file = true } in
    let st : Step s t = exit_signaled e refl in Exits-prepend st refl (from_unlocking t quiet refl)

from_closing : (s : Sys) → s.listener ≡ stopped → s.main ≡ closing → Exits s
from_closing s quiet e =
    let t : Sys = record s { main = signaling; are_closed = true } in
    let st : Step s t = writers_closed e refl in Exits-prepend st refl (from_signaling t quiet refl)

-- The tasks end, one after the other.
from_waiting :
    (n : ℕ) (s : Sys) → s.listener ≡ stopped → s.main ≡ MainPc.waiting → s.running ≡ n → Exits s
from_waiting zero s quiet e r =
    let t : Sys = record s { main = closing } in
    let st : Step s t = all_done e r refl in Exits-prepend st refl (from_closing t quiet refl)
from_waiting (suc n) s quiet e r =
    let t : Sys = record s { running = s.running - 1 } in
    let st : Step s t = task_ends (ground arith) refl in
    Exits-prepend st refl (from_waiting n t quiet e (omega (arith, r)))

from_stopping : (s : Sys) → s.listener ≡ stopped → s.main ≡ stopping → Exits s
from_stopping s quiet e =
    let t : Sys = record s { main = MainPc.waiting } in
    let rest = from_waiting s.running t quiet refl refl in
    elim (Bool-cases s.use_cron) [
      | inl c ↦ let st : Step s t = scheduler_stopped e c refl in Exits-prepend st refl rest
      | inr c ↦
          let u : Sys = record t { senders = s.senders + 1 } in
          let st : Step s u = timed_out e c refl in
          Exits-prepend st refl (from_waiting s.running u quiet refl refl)
    ]

from_pc :
    (m : MainPc) (s : Sys)
    → s.main ≢ aborted
    → s.listener ≡ stopped
    → s.is_cancelled ≡ true
    → s.main ≡ m
    → Exits s
from_pc capturing s alive quiet c e =
    let t : Sys = record s { main = stopping } in
    let st : Step s t = context_done e (ground arith) refl in
    Exits-prepend st refl (from_stopping t quiet refl)
from_pc stopping s alive quiet c e = from_stopping s quiet e
from_pc MainPc.waiting s alive quiet c e = from_waiting s.running s quiet e refl
from_pc closing s alive quiet c e = from_closing s quiet e
from_pc signaling s alive quiet c e = from_signaling s quiet e
from_pc unlocking s alive quiet c e = from_unlocking s quiet e
from_pc joining s alive quiet c e = from_joining s quiet e
from_pc exited s alive quiet c e = (s, arrived, e)
from_pc aborted s alive quiet c e = absurd (alive e)

-- The listener stops, behind a connection of the handler if it is blocked.
from_checking :
    (s : Sys) → s.main ≢ aborted → s.listener ≡ checking → s.is_cancelled ≡ true → Exits s
from_checking s alive l c =
    let t : Sys = record s { listener = stopped } in
    let st : Step s t = stops_listening l c refl in
    Exits-prepend st refl (from_pc s.main t alive refl c refl)

from_listener :
    (k : Listener) (s : Sys)
    → s.main ≢ aborted
    → Inv s
    → s.is_cancelled ≡ true
    → s.listener ≡ k
    → Exits s
from_listener checking s alive inv c l = from_checking s alive l c
from_listener stopped s alive inv c l = from_pc s.main s alive l c refl
from_listener failed s alive inv c l = absurd (alive (inv.fail l))
from_listener binding s alive inv c l =
    let t : Sys = record s { listener = checking } in
    let st : Step s t = listens l refl in Exits-prepend st refl (from_checking t alive refl c)
from_listener accepting s alive inv c l =
    let t : Sys = record s { handler = done; listener = connected s.listener } in
    let busy : s.handler ≡ dialing = by_handler s.handler (inv.cancel.0 c) (inv.dial l) in
    let st : Step s t = dialed busy refl in
    Exits-prepend st refl (from_checking t alive (ap connected l) c)
  where
    by_handler : (h : Handler) → h ≢ Handler.waiting → h ≢ done → h ≡ dialing
    by_handler h a b = ground arith

-- From every reachable state behind a termination signal, unless the process was ended, by the listener
-- or by a deadline that was sent on a closed channel, there are steps that take tcpdumpw to its end, with
-- the scheduler or without it; and none of these steps is a connection to the listener from outside.
pub Reach-Exits :
    {cron : Bool} {tasks : ℕ} {has_timeout : Bool} {s : Sys}
    → Reach (launch cron tasks has_timeout) s
    → s.is_cancelled ≡ true
    → s.main ≢ aborted
    → Exits s
Reach-Exits {s = s} r c alive = from_listener s.listener s alive (Reach-Inv r) c refl
