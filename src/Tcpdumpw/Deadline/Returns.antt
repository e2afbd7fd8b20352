-- ===== src/Tcpdumpw/Deadline/Returns.antt =====
-- `start` returns, whether the tasks end or not.
use cloud_run_tcpdump.Prelude.{ℕ, ◌+◌, ◌-◌, ◌^◌, ◌≤◌, ◌<◌, ◌≡◌, ◌≢◌, refl, arith}
use cloud_run_tcpdump.Tcpdumpw.Main.{is_positive}
use cloud_run_tcpdump.Tcpdumpw.Deadline.{
  sub64, two_seconds, wait_of, MainPc, measuring, arming, selecting, returning, closed, computing,
  Sys, begin, Step, time_passes, measures, arms, timed_out, closes, Reach, here, next,
}
use cloud_run_tcpdump.Tcpdumpw.Deadline.Safety.{Inv, Reach-Inv}

-- There are steps to the end of `start`, in which no task ends and two seconds pass at most.
pub record Returns (s : Sys) : Type 0 where
  pub end_state : Sys
  pub steps : Reach s end_state
  pub shut : end_state.main ≡ closed
  pub same : end_state.running ≡ s.running
  pub soon : end_state.now ≤ s.now + two_seconds

wait_of-le : (measured : ℕ) → measured < 2 ^ 62 → wait_of (sub64 two_seconds measured) ≤ two_seconds
unfolding wait_of sub64 is_positive
wait_of-le measured h = ground arith

Reach-trans : {s t u : Sys} → Reach s t → Reach t u → Reach s u
Reach-trans r here = r
Reach-trans r (next q st) = next (Reach-trans r q) st

-- A step that leaves the tasks alone and takes no time.
after : {s t : Sys} → Step s t → t.running ≡ s.running → t.now ≡ s.now → Returns t → Returns s
after st same now w = record {
  end_state = w.end_state;
  steps = Reach-trans (next here st) w.steps;
  shut = w.shut;
  same = ground (arith, w.same);
  soon = ground (arith, w.soon);
}

closed-Returns : (s : Sys) → s.main ≡ closed → Returns s
closed-Returns s h = record {
  end_state = s;
  steps = here;
  shut = h;
  same = refl;
  soon = omega arith;
}

returning-Returns : (s : Sys) → s.main ≡ returning → Returns s
returning-Returns s h =
    after (closes h refl) refl refl (closed-Returns (record s { main = closed }) refl)

selecting-Returns :
    (s : Sys) → s.main ≡ selecting → s.armed ≤ s.now → wait_of s.max_wait ≤ two_seconds → Returns s
selecting-Returns s h armed short =
    let d = (s.armed + wait_of s.max_wait) - s.now in
    let waited : Sys = record s { now = s.now + d } in
    let out : Sys = record waited { main = returning } in
    record {
      end_state = record out { main = closed };
      steps =
          next (next (next here (time_passes d refl)) (timed_out h (omega arith) refl))
            (closes refl refl);
      shut = refl;
      same = refl;
      soon = omega arith;
    }

arming-Returns : (s : Sys) → s.main ≡ arming → wait_of s.max_wait ≤ two_seconds → Returns s
arming-Returns s h short = after (arms h refl) refl refl (
    selecting-Returns (record s { main = selecting; armed = s.now; sender = computing s.tasks })
      refl (omega arith) short)

measuring-Returns : (s : Sys) → s.main ≡ measuring → s.now < 2 ^ 62 → Returns s
measuring-Returns s h early = after (measures h refl) refl refl (
    arming-Returns
      (record s { main = arming; measured = s.now; max_wait = sub64 two_seconds s.now }) refl
      (wait_of-le s.now early))

Inv-short :
    {s : Sys} → Inv s → s.main ≢ measuring → s.now < 2 ^ 62 → wait_of s.max_wait ≤ two_seconds
Inv-short {s} inv begun early =
    rw (inv.max_wait_lem begun) (wait_of-le s.measured (omega (arith, inv.measured-le begun)))

by_main : (s : Sys) (m : MainPc) → s.main ≡ m → Inv s → s.now < 2 ^ 62 → Returns s
by_main s measuring h inv early = measuring-Returns s h early
by_main s arming h inv early = arming-Returns s h (Inv-short inv (ground arith) early)
by_main s selecting h inv early =
    selecting-Returns s h (inv.armed_now (ground arith) (ground arith))
      (Inv-short inv (ground arith) early)
by_main s returning h inv early = returning-Returns s h
by_main s closed h inv early = closed-Returns s h

-- From every reachable state there are steps that take `start` to its end within two seconds, even if
-- no task ends; for 2 ^ 62 nanoseconds.
pub Reach-Returns :
    {tasks running : ℕ} {s : Sys} → Reach (begin tasks running) s → s.now < 2 ^ 62 → Returns s
Reach-Returns {s = s} r early = by_main s s.main refl (Reach-Inv r) early
