-- ===== src/PcapFsn/Memory/Ticks.antt =====
-- What the ticks report and leave open.
use cloud_run_tcpdump.Prelude.{
  if◌then◌else◌, ℕ, ◌+◌, ◌≡◌, refl, Bool, true, false, Option, none, some, List, [], ◌∷◌, arith,
}
use cloud_run_tcpdump.PcapFsn.Memory.{
  Scanned, Kernel, utilization_path, read_opened, get_current_memory_utilization, flush_buffers,
  tick, ticks,
}

-- The file with the utilization opens.
abbrev pub opens : Option Scanned → Bool
opens none = false
opens (some s) = true

abbrev pub opened_by : Option Scanned → ℕ
opened_by o = if opens o then 1 else 0

-- The files that a tick opens to read the memory utilization.
abbrev pub opened_in : Bool → Kernel → ℕ
opened_in is_gae k =
    let path = utilization_path is_gae in
    opened_by (k.open_before path) + opened_by (k.open_after path)

abbrev pub opened : Bool → List Kernel → ℕ
opened is_gae [] = 0
opened is_gae (k ∷ ks) = let rest = opened is_gae ks in opened_in is_gae k + rest

read_opened_handles :
    (o : Option Scanned) (handles : ℕ) → (read_opened o handles).1 ≡ handles + opened_by o
unfolding read_opened
read_opened_handles none handles = omega arith
read_opened_handles (some s) handles = refl

tick_handles :
    (k : Kernel) (is_gae : Bool) (handles : ℕ)
    → (tick k is_gae handles).1 ≡ handles + opened_in is_gae k
unfolding tick flush_buffers get_current_memory_utilization
tick_handles k is_gae handles =
    let before = k.open_before (utilization_path is_gae) in
    let after = k.open_after (utilization_path is_gae) in
    ground (
      arith,
      read_opened_handles before handles,
      read_opened_handles after (flush_buffers k (read_opened before handles).1).1,
    )

-- Every reading of the memory utilization leaves one more file open, twice in each tick where the file
-- opens: it is never closed. The file to drop the caches is closed.
pub ticks_handles :
    (is_gae : Bool) (ks : List Kernel) (handles : ℕ)
    → (ticks is_gae ks handles).1 ≡ handles + opened is_gae ks
unfolding ticks
ticks_handles is_gae [] handles = omega arith
ticks_handles is_gae (k ∷ ks) handles =
    ground (arith, ticks_handles is_gae ks (tick k is_gae handles).1, tick_handles k is_gae handles)
