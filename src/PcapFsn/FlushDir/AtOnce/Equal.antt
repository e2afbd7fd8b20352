-- ===== src/PcapFsn/FlushDir/AtOnce/Equal.antt =====
-- The calls at once do what they do one behind the other.
use cloud_run_tcpdump.Prelude.{
  leb, Bool-cases, all, ◌≤◌, ◌≡◌, refl, sym, ap, ◌∙◌, inl, inr, true, false, not, List, map, arith,
}
use mathlib.Core.Path.{subst}
use cloud_run_tcpdump.Text.{Text, text_eq, contains}
use cloud_run_tcpdump.Text.Laws.{text_eq_iff, contains-all}
use cloud_run_tcpdump.PcapFsn.Move.{Fs, Faults, Target}
use cloud_run_tcpdump.PcapFsn.Export.{Haxmap, Config, State}
use cloud_run_tcpdump.PcapFsn.FlushDir.{flush_all}
use cloud_run_tcpdump.PcapFsn.FlushDir.AtOnce.{
  Thread, checking, returned, Calls, target, run_at_once, start_calls,
}
use cloud_run_tcpdump.PcapFsn.FlushDir.AtOnce.Alone.{
  turns, apart, run_at_once-Follows, run_at_once-other,
}
use cloud_run_tcpdump.PcapFsn.FlushDir.AtOnce.Whole.{has_ended, go-more, go-IsWhole}
use cloud_run_tcpdump.PcapFsn.FlushDir.AtOnce.Apart.{
  are_apart, are_apart-apart, all-of, all-weaken, map-of, contains-map, contains-map_self,
}
use cloud_run_tcpdump.PcapFsn.FlushDir.AtOnce.Sequence.{exported, flush_all-exported}

module _ (H : Haxmap) (T : Target) (cfg : Config) (faults : Text → Faults) (s : State H)
    (ps schedule : List Text) (once : are_apart T cfg faults s.is_active ps ≡ true)
    (known : all (contains ps) schedule ≡ true)
    (fair : all (λ p. leb 6 (turns p schedule)) ps ≡ true) where
  abbrev tgt : Text → Text
  tgt = target T cfg faults s.is_active

  abbrev after : Calls
  after = run_at_once T cfg faults s.is_active schedule (start_calls T cfg faults s.is_active s.fs)

  -- A call of the list behind the schedule, and its place.
  record IsDone (p : Text) : Type 0 where
    ended : has_ended (after.thread p) ≡ true
    result : returned (after.thread p) ≡ (exported H T cfg faults s.is_active p s).1
    held : after.fs.file (tgt p) ≡ (exported H T cfg faults s.is_active p s).0.fs.file (tgt p)

  listed-IsDone : (p : Text) → contains ps p ≡ true → IsDone p
  listed-IsDone p m =
      let clear : all (apart T cfg faults s.is_active p) schedule ≡ true =
        all-weaken (contains ps) (apart T cfg faults s.is_active p) schedule
          (λ q n. are_apart-apart T cfg faults s.is_active ps p q once m n) known in
      let (ended, result, files) = go-IsWhole T cfg faults s.is_active H p s refl in
      let many : 6 ≤ turns p schedule =
        ground (arith, contains-all (λ r. leb 6 (turns r schedule)) ps p fair m) in
      let late =
        go-more T cfg faults s.is_active p 6 (turns p schedule) (checking, s.fs) many ended in
      let (there, agree) =
        run_at_once-Follows T cfg faults s.is_active p schedule
          (start_calls T cfg faults s.is_active s.fs) (checking, s.fs) clear (refl, (refl, refl)) in
      let whole = there ∙ ap (λ (x : Thread × Fs). x.0) late in
      record {
        ended = ap has_ended whole ∙ ended;
        result = ap returned whole ∙ result;
        held = agree.1 ∙ ap (λ (x : Thread × Fs). x.1.file (tgt p)) late ∙ files (tgt p);
      }

  unwritten_place :
      (q : Text)
      → contains (map tgt ps) q ≡ false
      → (p : Text) → contains ps p ≡ true
      → not (text_eq (tgt p) q) ≡ true
  unwritten_place q e p m = ground (arith, contains-map_self tgt ps p m, text_eq_iff (tgt p) q)

  -- Files of which none is the place of another, and of which no two have the same place in the bucket:
  -- the flushing calls for them, run at once by a schedule that has six steps or more for each of them
  -- and is otherwise arbitrary, end with the files, and return what they return, one behind the other;
  -- whatever calls to the file system fail, for each file on its own.
  pub run_at_once-flush_all :
      ((q : Text) → after.fs.file q ≡ (flush_all H T cfg faults ps s).0.fs.file q)
      × (map (λ p. returned (after.thread p)) ps ≡ (flush_all H T cfg faults ps s).1)
      × (all (λ p. has_ended (after.thread p)) ps ≡ true)
  run_at_once-flush_all =
      let (held, results, others) = flush_all-exported H T cfg faults s.is_active ps s refl once in
      (
        λ q. elim (Bool-cases (contains (map tgt ps) q)) [
          | inl e ↦
              let (p, m, same) = contains-map tgt ps q e in
              subst (λ r. after.fs.file r ≡ (flush_all H T cfg faults ps s).0.fs.file r) same
                ((listed-IsDone p m).held ∙ sym (held p m))
          | inr e ↦
              let unwritten = λ (p : Text) (m : contains ps p ≡ true). unwritten_place q e p m in
              run_at_once-other T cfg faults s.is_active schedule _ q
                (all-weaken (contains ps) (λ p. not (text_eq (tgt p) q)) schedule unwritten known)
              ∙ sym (others q (all-of (λ p. not (text_eq (tgt p) q)) ps unwritten))
        ],
        map-of (λ p. returned (after.thread p)) (λ p. (exported H T cfg faults s.is_active p s).1)
              ps (λ p m. (listed-IsDone p m).result)
            ∙ sym results,
        all-of (λ p. has_ended (after.thread p)) ps (λ p m. (listed-IsDone p m).ended),
      )
