-- ===== src/Tcpdumpw/Deadline/Safety.antt =====
-- What holds in every reachable state.
use cloud_run_tcpdump.Prelude.{
  length, length-append, ℕ, suc, ◌+◌, ◌≤◌, ◌<◌, ◌≡◌, ◌≢◌, [], ◌∷◌, arith,
}
use cloud_run_tcpdump.Tcpdumpw.Main.{is_positive}
use cloud_run_tcpdump.Tcpdumpw.Deadline.{
  sub64, two_seconds, wait_of, TaskDeadline, measuring, arming, returning, closed, SenderPc, unborn,
  computing, holding, finished, panicked, Sys, begin, Step, time_passes, measures, arms, computes,
  sends, send_panics, finishes, takes, task_ends, timed_out, job_done, closes, Reach, here, next,
}

-- How many deadlines the goroutine is still to send.
abbrev pub left : ℕ → SenderPc → ℕ
left tasks unborn = tasks
left tasks (computing k) = k
left tasks (holding d k) = suc k
left tasks finished = 0
left tasks panicked = 0

-- The wait of the main thread is over because the timer ran out.
abbrev pub RanOut : Sys → Type 0
RanOut s = s.armed + wait_of s.max_wait ≤ s.now

pub record Inv (s : Sys) : Type 0 where
  pub unborn_lem : s.main ≡ measuring → s.sender ≡ unborn
  pub unborn_arming : s.main ≡ arming → s.sender ≡ unborn
  pub born : s.main ≢ measuring → s.main ≢ arming → s.sender ≢ unborn
  pub count : s.sender ≢ panicked → length s.sent + left s.tasks s.sender ≡ s.tasks
  pub short : s.sender ≡ panicked → length s.sent < s.tasks
  pub open_lem : s.sender ≡ panicked → s.main ≡ closed
  pub quiet : s.sender ≡ finished → s.running ≡ 0
  pub over : s.main ≡ returning → s.sender ≢ finished → RanOut s
  pub over_closed : s.main ≡ closed → s.sender ≢ finished → RanOut s
  pub measured-le : s.main ≢ measuring → s.measured ≤ s.now
  pub armed-le : s.main ≢ measuring → s.main ≢ arming → s.measured ≤ s.armed
  pub armed_now : s.main ≢ measuring → s.main ≢ arming → s.armed ≤ s.now
  pub max_wait_lem : s.main ≢ measuring → s.max_wait ≡ sub64 two_seconds s.measured

Step-Inv : {s t : Sys} → Step s t → Inv s → Inv t
Step-Inv (time_passes d e) inv = ground arith
Step-Inv (measures a e) inv = ground arith
Step-Inv (arms a e) inv = ground arith
Step-Inv (computes k a e) inv = ground arith
Step-Inv {s} (sends d k a b c e) inv = ground (arith, length-append s.sent (d ∷ []))
Step-Inv (send_panics d k a b e) inv = ground arith
Step-Inv (finishes a b e) inv = ground arith
Step-Inv (takes a b e) inv = ground arith
Step-Inv (task_ends a b e) inv = ground arith
Step-Inv (timed_out a b e) inv = ground arith
Step-Inv (job_done a b e) inv = ground arith
Step-Inv (closes a e) inv = ground arith

pub Reach-Inv : {tasks running : ℕ} {s : Sys} → Reach (begin tasks running) s → Inv s
Reach-Inv here = ground arith
Reach-Inv (next r st) = Step-Inv st (Reach-Inv r)

-- Whenever the timer was created, it does not run out before the two seconds are over.
two_seconds-le :
    (measured armed : ℕ)
    → measured ≤ armed
    → two_seconds ≤ armed + wait_of (sub64 two_seconds measured)
unfolding wait_of sub64 is_positive
two_seconds-le measured armed h = ground arith

Inv-late : {s : Sys} → Inv s → s.main ≡ closed → s.sender ≢ finished → two_seconds ≤ s.now
Inv-late {s} inv shut busy =
    let begun : s.main ≢ measuring = ground arith in
    let set : s.main ≢ arming = ground arith in
    let wait : s.max_wait ≡ sub64 two_seconds s.measured = inv.max_wait_lem begun in
    let out : s.armed + wait_of (sub64 two_seconds s.measured) ≤ s.now =
      rw wait at (inv.over_closed shut busy) in
    omega (arith, two_seconds-le s.measured s.armed (inv.armed-le begun set), out)

Inv-done :
    {s : Sys}
    → Inv s
    → s.main ≡ closed
    → s.now < two_seconds
    → (length s.sent ≡ s.tasks) × (s.running ≡ 0)
Inv-done {s} inv shut early = ground (arith, Inv-late inv shut, inv.count, inv.quiet)

-- While the tasks are stopped, in every interleaving: a deadline that is to be sent finds room in the
-- channel, so no send waits. A send panics only when two seconds are over and the channel was closed
-- before every task had its deadline. `start` is past its wait within two seconds only if every task had
-- its deadline sent and no task runs any more.
pub Reach-sends :
    {tasks running : ℕ} {s : Sys}
    → Reach (begin tasks running) s
    → ((d : TaskDeadline) (k : ℕ) → s.sender ≡ holding d k → length s.sent < s.taken + s.tasks)
      × (s.sender ≡ panicked
          → (two_seconds ≤ s.now) × (s.main ≡ closed) × (length s.sent < s.tasks))
      × (s.main ≡ closed → s.now < two_seconds → (length s.sent ≡ s.tasks) × (s.running ≡ 0))
Reach-sends {s = s} r =
    let inv = Reach-Inv r in
    (
      λ d k h. ground (arith, inv.count),
      λ h. let shut = inv.open_lem h in (Inv-late inv shut (ground arith), shut, inv.short h),
      λ h early. Inv-done inv h early,
    )
