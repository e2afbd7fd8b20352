-- ===== src/PcapFsn/Shutdown/Ends.antt =====
-- The way to the end of the main thread.
use cloud_run_tcpdump.Prelude.{
  ltb, Bool-cases, ◌+◌, ◌-◌, ◌<◌, ◌≡◌, refl, ◌≢◌, inl, inr, Bool, true, false, arith,
}
use cloud_run_tcpdump.PcapFsn.Shutdown.{
  MainPc, checking, waiting, joining, flushing, ended, LoopPc, testing, selecting, working, stopped,
  export_ends, joined, exit_signal, lock_held, loop_ends, loop_enters, export_begins, event_skipped,
  loop_closed, ticker_enters, ticker_ends, tick_begins, tick_ends, ticker_cancelled, cancelled,
  signaled, lock_fails, not_watched, Timer, unarmed, armed, off, Sys, start, deactivate, Step,
  timer_fires, watched, context_done, flushed, Reach,
}
use cloud_run_tcpdump.PcapFsn.Shutdown.Safety.{Inv, Step-Inv, Reach-Inv}

-- The step waits for tcpdumpw: for its exit signal, or for its lock.
abbrev pub is_told : {s t : Sys} → Step s t → Bool
is_told (exit_signal a b e) = true
is_told (lock_held a e) = true
is_told (loop_ends a b e) = false
is_told (loop_enters a b e) = false
is_told (export_begins a e) = false
is_told (export_ends a e) = false
is_told (event_skipped a e) = false
is_told (loop_closed a b e) = false
is_told (ticker_enters a b e) = false
is_told (ticker_ends a b e) = false
is_told (tick_begins a e) = false
is_told (tick_ends a e) = false
is_told (ticker_cancelled a b e) = false
is_told (cancelled a e) = false
is_told (joined a b e) = false
is_told (signaled a e) = false
is_told (timer_fires a e) = false
is_told (lock_fails a e) = false
is_told (watched a b e) = false
is_told (not_watched a b e) = false
is_told (context_done a b e) = false
is_told (flushed a b e) = false

-- A way without such steps.
pub data Alone : Sys → Sys → Type 0 where
  arrived : {s : Sys} → Alone s s
  first : {s t u : Sys} (st : Step s t) → is_told st ≡ false → Alone t u → Alone s u

-- A state with the main thread at its end and the context cancelled, to which there is a way that does
-- not wait for tcpdumpw.
abbrev pub Ends : Sys → Type 0
Ends s = (t : Sys) × (Alone s t) × (t.main ≡ ended) × (t.cancels ≡ 1)

Ends-prepend : {s t : Sys} (st : Step s t) → is_told st ≡ false → Ends t → Ends s
Ends-prepend st own (t, r, e, c) = (t, first st own r, e, c)

from_quiet : (s : Sys) → Inv s → s.main ≡ flushing → s.loop ≢ working → Ends s
from_quiet s inv e q =
    let t : Sys = record s { main = ended } in
    (t, first (flushed e q refl) refl arrived, refl, ground (arith, inv, e))

from_flushing : (k : LoopPc) (s : Sys) → Inv s → s.main ≡ flushing → s.loop ≡ k → Ends s
from_flushing working s inv e l =
    let t : Sys = record s { loop = testing } in
    let st : Step s t = export_ends l refl in
    let u : Sys = record t { main = ended } in
    let su : Step t u = flushed e (λ h. ground arith) refl in
    (u, first st refl (first su refl arrived), refl, ground (arith, inv, e))
from_flushing testing s inv e l = from_quiet s inv e (λ h. ground arith)
from_flushing selecting s inv e l = from_quiet s inv e (λ h. ground arith)
from_flushing stopped s inv e l = from_quiet s inv e (λ h. ground arith)

from_joined : (s : Sys) → Inv s → s.main ≡ joining → s.loop ≢ working → Ends s
from_joined s inv e q =
    let t : Sys = record s { main = flushing } in
    let st : Step s t = joined e q refl in
    Ends-prepend st refl (from_flushing t.loop t (Step-Inv st inv) refl refl)

from_joining : (k : LoopPc) (s : Sys) → Inv s → s.main ≡ joining → s.loop ≡ k → Ends s
from_joining working s inv e l =
    let t : Sys = record s { loop = testing } in
    let st : Step s t = export_ends l refl in
    Ends-prepend st refl (from_joined t (Step-Inv st inv) e (λ h. ground arith))
from_joining testing s inv e l = from_joined s inv e (λ h. ground arith)
from_joining selecting s inv e l = from_joined s inv e (λ h. ground arith)
from_joining stopped s inv e l = from_joined s inv e (λ h. ground arith)

from_cancelled : (s : Sys) → Inv s → s.main ≡ waiting → 0 < s.cancels → Ends s
from_cancelled s inv e c =
    let t : Sys = record s { main = joining } in
    let st : Step s t = context_done e c refl in
    Ends-prepend st refl (from_joining t.loop t (Step-Inv st inv) refl refl)

-- The thread that made the watcher inactive calls `cancel()`, if it has not yet.
from_inactive : (s : Sys) → Inv s → s.main ≡ waiting → s.is_active ≡ false → Ends s
from_inactive s inv e idle = elim (Bool-cases (ltb 0 s.cancels)) [
  | inl c ↦ from_cancelled s inv e (ground arith)
  | inr c ↦
      let t : Sys = record s { pending = s.pending - 1; cancels = s.cancels + 1 } in
      let one : 0 < s.pending = ground (arith, inv) in
      let st : Step s t = cancelled one refl in
      Ends-prepend st refl (from_cancelled t (Step-Inv st inv) e (omega arith))
]

from_waiting :
    (s : Sys) → Inv s → s.main ≡ waiting → (k : Timer) → s.timer ≡ k → k ≢ unarmed → Ends s
from_waiting s inv e unarmed f h = absurd (h refl)
from_waiting s inv e armed f h =
    let t : Sys = record (deactivate s) { timer = off } in
    let st : Step s t = timer_fires f refl in
    let inv' : Inv t = Step-Inv st inv in
    Ends-prepend st refl (from_inactive t inv' e (inv'.timed refl))
from_waiting s inv e off f h = from_inactive s inv e (inv.timed f)

from_pc : (s : Sys) → Inv s → s.timer ≢ unarmed → (m : MainPc) → s.main ≡ m → Ends s
from_pc s inv h checking e =
    let t : Sys = record s { main = waiting } in
    let st : Step s t = watched e inv.watch refl in
    Ends-prepend st refl (from_waiting t (Step-Inv st inv) refl s.timer refl h)
from_pc s inv h waiting e = from_waiting s inv e s.timer refl h
from_pc s inv h joining e = from_joining s.loop s inv e refl
from_pc s inv h flushing e = from_flushing s.loop s inv e refl
from_pc s inv h ended e = (s, arrived, e, ground (arith, inv, e))

-- Where the directory is watched: from every reachable state behind a termination signal there
-- are steps that take the main thread to its end, with the context cancelled once, whatever the
-- other threads did before; and none of these steps waits for the exit signal or for the lock of
-- tcpdumpw.
pub Reach-Ends : {s : Sys} → Reach (start false) s → s.timer ≢ unarmed → Ends s
Reach-Ends {s} r h = from_pc s (Reach-Inv r) h s.main refl
