-- ===== src/Tcpdumpw/Deadline.antt =====
-- `waitJobDone` and the end of `start` in tcpdumpw/main.go, from the moment that the context of the
-- tasks is done, `ctxDoneTS`, which is time 0; times count nanoseconds. The main thread waits for two
-- seconds at most, while a goroutine sends each task a deadline on the channel `stopDeadline` and then
-- waits for the tasks. Each constructor of `Step` is one atomic action, and time may pass between any
-- two. Durations are signed, in two's complement of 64 bits.
pub mod Safety
pub mod Sent
pub mod Returns
use cloud_run_tcpdump.Prelude.{
  if◌then◌else◌, length, ℕ, zero, suc, ◌+◌, ◌-◌, ◌%◌, ◌^◌, ◌≤◌, ◌<◌, ◌≡◌, ◌≢◌, Bool, true, false,
  List, [], ◌∷◌, ◌++◌,
}
use cloud_run_tcpdump.Tcpdumpw.Main.{is_positive}

-- The difference of two durations.
unfoldable pub sub64 : ℕ → ℕ → ℕ
sub64 a b = (a + (2 ^ 64 - b % 2 ^ 64)) % 2 ^ 64

abbrev pub two_seconds : ℕ
two_seconds = 2000000000

-- A timer for a negative duration fires at once.
unfoldable pub wait_of : ℕ → ℕ
wait_of bits = if is_positive bits then bits else 0

-- `taskStopDeadline`, and when it was computed.
pub record TaskDeadline : Type 0 where
  pub bits : ℕ
  pub at : ℕ

-- The main thread computes `maxWaitTime`, creates the timer, waits in the `select`, returns from
-- `waitJobDone`, and has closed the channel.
pub data MainPc : Type 0 where
  measuring arming selecting returning closed : MainPc

-- The goroutine is not there yet; it is to compute a number of deadlines; it holds one, with a number
-- to come; it is past `wg.Wait()`; it has sent on the closed channel, which ends the process.
pub data SenderPc : Type 0 where
  unborn : SenderPc
  computing : ℕ → SenderPc
  holding : TaskDeadline → ℕ → SenderPc
  finished : SenderPc
  panicked : SenderPc

-- The number of tasks, which is the capacity of `stopDeadline`, and the counter of `wg`; the time;
-- when `maxWaitTime` was computed, its value, and when the timer was created; the deadlines sent, and
-- how many of them the tasks took from the channel.
pub record Sys : Type 0 where
  pub tasks : ℕ
  pub running : ℕ
  pub now : ℕ
  pub measured : ℕ
  pub max_wait : ℕ
  pub armed : ℕ
  pub main : MainPc
  pub sender : SenderPc
  pub sent : List TaskDeadline
  pub taken : ℕ

abbrev pub begin : ℕ → ℕ → Sys
begin tasks running = record {
  tasks = tasks;
  running = running;
  now = 0;
  measured = 0;
  max_wait = 0;
  armed = 0;
  main = measuring;
  sender = unborn;
  sent = [];
  taken = 0;
}

pub data Step (s t : Sys) : Type 0 where
  time_passes : (d : ℕ) → t ≡ record s { now = s.now + d } → Step s t
  measures :
      s.main ≡ measuring
      → t ≡ record s { main = arming; measured = s.now; max_wait = sub64 two_seconds s.now }
      → Step s t
  -- `time.NewTimer`, and the `go` statement behind it.
  arms :
      s.main ≡ arming
      → t ≡ record s { main = selecting; armed = s.now; sender = computing s.tasks }
      → Step s t
  -- A round of the loop over the tasks: `*deadline - time.Since(*ctxDoneTS)`, where `deadline` points to
  -- `maxWaitTime`, and the send, which waits while the channel is full.
  computes :
      (k : ℕ)
      → s.sender ≡ computing (suc k)
      → t ≡ record s { sender = holding (record { bits = sub64 s.max_wait s.now; at = s.now }) k }
      → Step s t
  sends :
      (d : TaskDeadline) (k : ℕ)
      → s.sender ≡ holding d k
      → s.main ≢ closed
      → length s.sent < s.taken + s.tasks
      → t ≡ record s { sender = computing k; sent = s.sent ++ (d ∷ []) }
      → Step s t
  send_panics :
      (d : TaskDeadline) (k : ℕ)
      → s.sender ≡ holding d k
      → s.main ≡ closed
      → t ≡ record s { sender = panicked }
      → Step s t
  -- `wg.Wait()`, and the signal to the main thread.
  finishes : s.sender ≡ computing 0 → s.running ≡ 0 → t ≡ record s { sender = finished } → Step s t
  -- A task takes a deadline, and ends.
  takes :
      s.sender ≢ panicked
      → s.taken < length s.sent
      → t ≡ record s { taken = s.taken + 1 }
      → Step s t
  task_ends :
      s.sender ≢ panicked → 0 < s.running → t ≡ record s { running = s.running - 1 } → Step s t
  -- The two cases of the `select`.
  timed_out :
      s.main ≡ selecting
      → s.armed + wait_of s.max_wait ≤ s.now
      → t ≡ record s { main = returning }
      → Step s t
  job_done : s.main ≡ selecting → s.sender ≡ finished → t ≡ record s { main = returning } → Step s t
  -- `close(stopDeadline)` of `start`.
  closes : s.main ≡ returning → t ≡ record s { main = closed } → Step s t

pub data Reach (s : Sys) : Sys → Type 0 where
  here : Reach s s
  next : {t u : Sys} → Reach s t → Step t u → Reach s u
