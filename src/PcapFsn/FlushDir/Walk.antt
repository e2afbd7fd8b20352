-- ===== src/PcapFsn/FlushDir/Walk.antt =====
-- Which files are flushed.
use cloud_run_tcpdump.Prelude.{
  if◌then◌else◌, Bool-cases, length, all, ℕ, ◌+◌, ◌%◌, ◌^◌, ◌<◌, ◌≡◌, refl, inl, inr, Bool, true,
  false, not, ◌&&◌, Option, none, some, List, [], ◌∷◌, ◌++◌, append_assoc, append-nil, arith,
}
use cloud_run_tcpdump.Text.{Text}
use cloud_run_tcpdump.PcapFsn.Move.{Faults, Target}
use cloud_run_tcpdump.PcapFsn.Export.{Haxmap, Config, State}
use cloud_run_tcpdump.PcapFsn.FlushDir.{
  flush_all, flush_pending, flush_src_dir, Entry, visit_info, visit, Pending, add_visit, walk_on,
  walk,
}

abbrev pub is_file : Option Bool → Bool
is_file none = false
is_file (some dir) = not dir

abbrev pub is_known : Option Bool → Bool
is_known none = false
is_known (some dir) = true

-- There is file information.
abbrev pub has_info : Entry → Bool
has_info e = is_known e.is_dir

-- A file, of which the walk knows all, and which passes the test.
abbrev pub is_flushed : (Entry → Bool) → Entry → Bool
is_flushed validator e = is_file e.is_dir && not e.failed && validator e

abbrev pub paths : (Entry → Bool) → List Entry → List Text
paths validator [] = []
paths validator (e ∷ es) =
    let rest = paths validator es in if is_flushed validator e then e.path ∷ rest else rest

walk_on-none : (validator : Entry → Bool) (es : List Entry) → walk_on validator es none ≡ none
unfolding walk_on
walk_on-none validator [] = refl
walk_on-none validator (e ∷ es) = refl

abbrev after : (Entry → Bool) → List Entry → Pending → Option Pending
after validator es p =
    if all has_info es
    then some (record {
      count = (p.count + length (paths validator es)) % 2 ^ 32;
      started = p.started ++ paths validator es;
    })
    else none

walk_on-after :
    (validator : Entry → Bool) (es : List Entry) (p : Pending)
    → p.count < 2 ^ 32
    → walk_on validator es (some p) ≡ after validator es p
unfolding walk_on visit visit_info add_visit
walk_on-after validator [] p h =
    let e : (p.count + 0) % 2 ^ 32 ≡ p.count = omega arith in simp (e, append-nil)
walk_on-after validator (e ∷ es) p h =
    let p' : Pending = record {
      count = (p.count + 1) % 2 ^ 32;
      started = p.started ++ (e.path ∷ []);
    } in
    ground (
      arith,
      walk_on-none validator es,
      walk_on-after validator es p h,
      walk_on-after validator es p' (omega arith),
      append_assoc p.started (e.path ∷ []) (paths validator es),
    )

walk_lem :
    (validator : Entry → Bool) (es : List Entry)
    → walk validator es ≡ (
        if all has_info es
        then some
            (record { count = length (paths validator es) % 2 ^ 32; started = paths validator es })
        else none)
unfolding walk
walk_lem validator es =
    ground (arith, walk_on-after validator es (record { count = 0; started = [] }) (omega arith))

module _ (H : Haxmap) (T : Target) (cfg : Config) (faults : Text → Faults) where
  abbrev pub flushes : List Text → State H → ℕ × State H × List Bool
  flushes ps s = let (s', done) = flush_all H T cfg faults ps s in (length ps % 2 ^ 32, s', done)

  -- `flushSrcDir` panics exactly if the walk meets a path without file information. Else it makes a
  -- flushing call for each file that passes the test and of which the walk reports no error, and
  -- returns their number modulo 2^32.
  pub flush_src_dir-flushes :
      (validator : Entry → Bool) (es : List Entry) (s : State H)
      → flush_src_dir H T cfg faults validator es s
        ≡ (if all has_info es then some (flushes (paths validator es) s) else none)
  unfolding flush_src_dir flush_pending
  flush_src_dir-flushes validator es s = elim (Bool-cases (all has_info es)) [
    | inl e ↦ rw (walk_lem validator es, e) refl
    | inr e ↦ rw (walk_lem validator es, e) refl
  ]
