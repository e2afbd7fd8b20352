-- ===== src/Tcpdumpw/Main/Codes.antt =====
-- Which code the program ends with.
use cloud_run_tcpdump.Prelude.{
  ltb, ◌==◌, if◌then◌else◌, length, is_nil, all, ℕ, ◌<◌, ◌≡◌, refl, Bool, true, false, not, ◌&&◌,
  ◌||◌, List, [], ◌∷◌, arith,
}
use cloud_run_tcpdump.Tcpdumpw.Tasks.{Engines, TaskOptions, find_devices, create_tasks}
use cloud_run_tcpdump.Tcpdumpw.Tasks.Bounds.{is_idle, create_tasks-is_nil}
use cloud_run_tcpdump.Ext.{StringFormatter, Mapset, Pcap, Netip}
use cloud_run_tcpdump.Tcpdumpw.Run as Run
use cloud_run_tcpdump.Tcpdumpw.Main.{
  Env, exit, captures, timeout_of, is_positive, schedule, begin, main, Flags, task_options,
}

length-is_nil {ℓ} : {A : Type ℓ} (xs : List A) → (length xs == 0) ≡ is_nil xs
length-is_nil [] = refl
length-is_nil (x ∷ xs) = ground arith

-- A timeout that fits 63 bits in nanoseconds is in force exactly if it is not 0.
timeout_fits : (d : ℕ) → d < 9223372036 → is_positive (timeout_of d) ≡ ltb 0 d
unfolding is_positive timeout_of
timeout_fits d h = ground arith

module _ (F : StringFormatter) (S : Mapset) (C : Pcap) (N : Netip) (E : Engines) (flags : Flags)
    (env : Env) where
  abbrev o : TaskOptions
  o = task_options F S C N flags

  abbrev no_task : Bool
  no_task = all (is_idle E o) (find_devices E o)

  abbrev no_lock : Bool
  no_lock = not env.locked || env.lock_failed

  -- The code says why there is no capture: 1 exactly if no device gets a task, 2 exactly if a task
  -- but no lock was had, 3 and 4 for the scheduler and its job, with the lock held. Else the capture
  -- begins, with the lock held, in the mode that was asked for, with all tasks, and with a timeout
  -- exactly if one was asked for, of less than 9223372036 seconds.
  pub main-code :
      env.duration < 9223372036
      → main F S C N E flags env ≡ (
          if no_task
          then exit 1 false
          else if no_lock
          then exit 2 false
          else if env.use_cron && env.scheduler_failed
          then exit 3 true
          else if env.use_cron && env.job_failed
          then exit 4 true
          else captures (Run.launch env.use_cron (length (create_tasks E o)) (ltb 0 env.duration)))
  unfolding main begin schedule
  main-code h = ground (
    arith,
    create_tasks-is_nil E o,
    length-is_nil (create_tasks E o),
    timeout_fits env.duration h,
  )
