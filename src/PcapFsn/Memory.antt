-- ===== src/PcapFsn/Memory.antt =====
-- `getCurrentMemoryUtilization`, `flushBuffers` and the ticks of the thread that calls them, in
-- pcap-fsnotify/main.go.
pub mod Ticks
use cloud_run_tcpdump.Prelude.{
  if◌then◌else◌, ℕ, ◌+◌, ◌-◌, ◌%◌, ◌^◌, Bool, true, false, not, Option, none, some, List, [], ◌∷◌,
}
use cloud_run_tcpdump.Text.{Text, codes}

-- What `fmt.Fscanf(file, "%d\n", &n)` makes of a file: the value that it leaves in `n`, as 64 bits, with
-- no error, with the end of the file, or with another error.
pub data Scanned : Type 0 where
  number : ℕ → Scanned
  at_end : ℕ → Scanned
  no_number : Scanned

-- The files that a tick finds: those that open, with what is scanned from them, before and after the
-- buffers are dropped, and whether the file to drop them opens and is written to.
pub record Kernel : Type 0 where
  pub open_before : Text → Option Scanned
  pub open_after : Text → Option Scanned
  pub open_drop_caches : Bool
  pub write_fails : Bool

abbrev pub cgroup_memory_utilization : Text
cgroup_memory_utilization = codes "/sys/fs/cgroup/memory/memory.usage_in_bytes"

abbrev pub docker_cgroup_memory_utilization : Text
docker_cgroup_memory_utilization = codes "/sys/fs/cgroup/memory.current"

-- The path that is read.
unfoldable pub utilization_path : Bool → Text
utilization_path is_gae =
    if is_gae then docker_cgroup_memory_utilization else cgroup_memory_utilization

-- The value, and whether there is an error.
abbrev pub Read : Type 0
Read = record { value : ℕ; has_error : Bool }

unfoldable pub read_scanned : Scanned → Read
read_scanned (number n) = record { value = n % 2 ^ 64; has_error = false }
read_scanned (at_end n) = record { value = n % 2 ^ 64; has_error = false }
read_scanned no_number = record { value = 0; has_error = true }

-- Beside the value, the number of files that this process holds open.
unfoldable pub read_opened : Option Scanned → ℕ → Read × ℕ
read_opened none handles = (record { value = 0; has_error = true }, handles)
read_opened (some s) handles = (read_scanned s, handles + 1)

unfoldable pub get_current_memory_utilization : (Text → Option Scanned) → Bool → ℕ → Read × ℕ
get_current_memory_utilization open_file is_gae handles =
    read_opened (open_file (utilization_path is_gae)) handles

-- Whether there is an error; the file is closed behind the write. What `sync` does is not seen here.
unfoldable pub flush_buffers : Kernel → ℕ → Bool × ℕ
flush_buffers k handles =
    if not k.open_drop_caches
    then (true, handles)
    else let opened = handles + 1 in (k.write_fails, opened - 1)

-- A tick returns what it reports as released, `int64(before) - int64(after)` in 64 bits, if the
-- buffers were dropped.
unfoldable pub tick : Kernel → Bool → ℕ → Option ℕ × ℕ
tick k is_gae handles =
    let (before, h1) = get_current_memory_utilization k.open_before is_gae handles in
    let (has_failed, h2) = flush_buffers k h1 in
    let (after, h3) = get_current_memory_utilization k.open_after is_gae h2 in
    (if has_failed then none else some ((before.value + (2 ^ 64 - after.value)) % 2 ^ 64), h3)

unfoldable pub ticks : Bool → List Kernel → ℕ → List (Option ℕ) × ℕ
ticks is_gae [] handles = ([], handles)
ticks is_gae (k ∷ ks) handles =
    let (released, h) = tick k is_gae handles in
    let (rest, h') = ticks is_gae ks h in (released ∷ rest, h')
