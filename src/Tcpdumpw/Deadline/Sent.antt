-- ===== src/Tcpdumpw/Deadline/Sent.antt =====
-- The deadlines that the tasks are sent.
use cloud_run_tcpdump.Prelude.{
  All, All-append, All-map, length, ℕ, ◌+◌, ◌^◌, ◌≤◌, ◌<◌, ◌≡◌, sym, ap, true, false, List, [], ◌∷◌,
  arith,
}
use cloud_run_tcpdump.Prelude.{◌≢◌}
use mathlib.Core.Path.{subst}
use cloud_run_tcpdump.Tcpdumpw.Main.{is_positive}
use cloud_run_tcpdump.Tcpdumpw.Deadline.{
  sub64, two_seconds, TaskDeadline, measuring, SenderPc, unborn, computing, holding, finished,
  panicked, Sys, begin, Step, time_passes, measures, arms, computes, sends, send_panics, finishes,
  takes, task_ends, timed_out, job_done, closes, Reach, here, next,
}
use cloud_run_tcpdump.Tcpdumpw.Deadline.Safety.{Inv, Reach-Inv}

-- The deadline is what is left of the two seconds, by two readings of the clock.
abbrev pub Timed : ℕ → ℕ → TaskDeadline → Type 0
Timed measured now d =
    (d.bits ≡ sub64 (sub64 two_seconds measured) d.at) × (measured ≤ d.at) × (d.at ≤ now)

-- The deadline that the goroutine holds.
abbrev pub Held : (TaskDeadline → Type 0) → SenderPc → Type 0
Held P unborn = Unit
Held P (computing k) = Unit
Held P (holding d k) = P d
Held P finished = Unit
Held P panicked = Unit

pub record Sent (s : Sys) : Type 0 where
  pub all : All (Timed s.measured s.now) s.sent
  pub held : Held (Timed s.measured s.now) s.sender

later : (measured now d : ℕ) (x : TaskDeadline) → Timed measured now x → Timed measured (now + d) x
later measured now d x h = (h.0, h.1, omega (arith, h.2))

Held-later :
    (measured now d : ℕ) (p : SenderPc)
    → Held (Timed measured now) p
    → Held (Timed measured (now + d)) p
Held-later measured now d unborn h = tt
Held-later measured now d (computing k) h = tt
Held-later measured now d (holding x k) h = later measured now d x h
Held-later measured now d finished h = tt
Held-later measured now d panicked h = tt

none_sent : (P : TaskDeadline → Type 0) (xs : List TaskDeadline) → length xs ≡ 0 → All P xs
none_sent P [] h = tt
none_sent P (x ∷ xs) h = absurd (omega (arith, h))

Held-of : (P : TaskDeadline → Type 0) {p q : SenderPc} → p ≡ q → Held P q → Held P p
Held-of P e h = subst (Held P) (sym e) h

Step-Sent : {s t : Sys} → Step s t → Inv s → Sent s → Sent t
Step-Sent {s} (time_passes d e) inv h = subst Sent (sym e) (record {
  all = All-map _ _ s.sent (later s.measured s.now d) h.all;
  held = Held-later s.measured s.now d s.sender h.held;
})
Step-Sent {s} (measures a e) inv h =
    let fresh : s.sender ≡ unborn = inv.unborn_lem a in
    let nothing : length s.sent ≡ 0 = ground (arith, inv.count) in
    subst Sent (sym e) (record { all = none_sent _ s.sent nothing; held = Held-of _ fresh tt })
Step-Sent {s} (arms a e) inv h = subst Sent (sym e) (record { all = h.all; held = tt })
Step-Sent {s} (computes k a e) inv h =
    let begun : s.main ≢ measuring = ground (arith, inv.unborn_lem) in
    subst Sent (sym e) (record {
      all = h.all;
      held = (
        ap (λ (w : ℕ). sub64 w s.now) (inv.max_wait_lem begun),
        inv.measured-le begun,
        omega arith,
      );
    })
Step-Sent {s} (sends d k a b c e) inv h =
    subst Sent (sym e)
      (record { all = All-append _ s.sent d h.all (subst (Held _) a h.held); held = tt })
Step-Sent {s} (send_panics d k a b e) inv h = subst Sent (sym e) (record { all = h.all; held = tt })
Step-Sent {s} (finishes a b e) inv h = subst Sent (sym e) (record { all = h.all; held = tt })
Step-Sent {s} (takes a b e) inv h = subst Sent (sym e) (record { all = h.all; held = h.held })
Step-Sent {s} (task_ends a b e) inv h = subst Sent (sym e) (record { all = h.all; held = h.held })
Step-Sent {s} (timed_out a b e) inv h = subst Sent (sym e) (record { all = h.all; held = h.held })
Step-Sent {s} (job_done a b e) inv h = subst Sent (sym e) (record { all = h.all; held = h.held })
Step-Sent {s} (closes a e) inv h = subst Sent (sym e) (record { all = h.all; held = h.held })

Reach-Sent : {tasks running : ℕ} {s : Sys} → Reach (begin tasks running) s → Sent s
Reach-Sent here = record { all = tt; held = tt }
Reach-Sent (next r st) = Step-Sent st (Reach-Inv r) (Reach-Sent r)

-- A deadline that was computed at some time, where `maxWaitTime` was computed at the time `measured`.
pub record IsDeadline (measured : ℕ) (d : TaskDeadline) : Type 0 where
  pub later_lem : measured ≤ d.at
  pub positive : is_positive d.bits ≡ true → d.at + d.bits + measured ≡ two_seconds
  pub negative : is_positive d.bits ≡ false → two_seconds ≤ d.at + measured

Timed-IsDeadline :
    (measured now : ℕ) (d : TaskDeadline)
    → now < 2 ^ 62
    → Timed measured now d
    → IsDeadline measured d
unfolding sub64 is_positive
Timed-IsDeadline measured now d early h = ground arith

-- The time that passed until `maxWaitTime` was computed is taken off each deadline twice: one that is
-- positive ends before the two seconds are over by that time, and one is not positive as soon as its
-- time and that time are two seconds together; in every interleaving, for 2 ^ 62 nanoseconds.
pub Reach-deadlines :
    {tasks running : ℕ} {s : Sys}
    → Reach (begin tasks running) s
    → s.now < 2 ^ 62
    → All (IsDeadline s.measured) s.sent
Reach-deadlines {s = s} r early =
    let h = Reach-Sent r in
    All-map _ _ s.sent (λ d. Timed-IsDeadline s.measured s.now d early) h.all
