-- ===== src/PcapFsn/FlushDir/AtOnce/Apart.antt =====
-- Files whose calls do not get into the way of one another.
use cloud_run_tcpdump.Prelude.{
  Bool-cases, all, ◌≡◌, refl, inl, inr, Bool, true, not, ◌&&◌, List, [], ◌∷◌, map, arith,
}
use cloud_run_tcpdump.Text.{Text, text_eq, contains}
use cloud_run_tcpdump.Text.Laws.{text_eq_iff, text_eq_refl, contains-all}
use cloud_run_tcpdump.PcapFsn.Move.{Faults, Target}
use cloud_run_tcpdump.PcapFsn.Export.{Config}
use cloud_run_tcpdump.PcapFsn.FlushDir.AtOnce.{target}
use cloud_run_tcpdump.PcapFsn.FlushDir.AtOnce.Alone.{apart}

-- What holds of the entries of a list.
pub all-of :
    (f : Text → Bool) (ps : List Text)
    → ((p : Text) → contains ps p ≡ true → f p ≡ true)
    → all f ps ≡ true
unfolding contains
all-of f [] h = refl
all-of f (p ∷ ps) h =
    let first : f p ≡ true = h p (ground (arith, text_eq_refl p)) in
    let rest : all f ps ≡ true = all-of f ps (λ q m. h q (ground arith)) in ground arith

pub all-weaken :
    (f g : Text → Bool) (ps : List Text)
    → ((p : Text) → f p ≡ true → g p ≡ true)
    → all f ps ≡ true
    → all g ps ≡ true
all-weaken f g [] h e = refl
all-weaken f g (p ∷ ps) h e =
    let rest : all g ps ≡ true = all-weaken f g ps h (ground arith) in
    let first : g p ≡ true = h p (ground arith) in ground arith

pub map-of {ℓ} :
    {A : Type ℓ} (f g : Text → A) (ps : List Text)
    → ((p : Text) → contains ps p ≡ true → f p ≡ g p)
    → map f ps ≡ map g ps
unfolding contains
map-of f g [] h = refl
map-of f g (p ∷ ps) h =
    rw (h p (ground (arith, text_eq_refl p)), map-of f g ps (λ q m. h q (ground arith))) refl

-- An entry of a mapped list is the value at an entry.
pub contains-map :
    (f : Text → Text) (ps : List Text) (q : Text)
    → contains (map f ps) q ≡ true
    → (p : Text) × (contains ps p ≡ true) × (f p ≡ q)
unfolding contains
contains-map f [] q h = absurd (ground arith)
contains-map f (p ∷ ps) q h = elim (Bool-cases (text_eq (f p) q)) [
  | inl e ↦ (p, ground (arith, text_eq_refl p), (text_eq_iff (f p) q).0 e)
  | inr e ↦ let (r, listed, same) = contains-map f ps q (ground arith) in (r, ground arith, same)
]

pub contains-map_self :
    (f : Text → Text) (ps : List Text) (p : Text)
    → contains ps p ≡ true
    → contains (map f ps) (f p) ≡ true
unfolding contains
contains-map_self f [] p h = h
contains-map_self f (r ∷ ps) p h =
    ground (arith, contains-map_self f ps p, text_eq_iff r p, text_eq_iff (f r) (f p))

module _ (T : Target) (cfg : Config) (faults : Text → Faults) (active : Bool) where
  abbrev tgt : Text → Text
  tgt = target T cfg faults active

  -- The place of `q` in the bucket is neither the file `p` nor its place.
  abbrev pub free : Text → Text → Bool
  free p q = not (text_eq (tgt q) p) && not (text_eq (tgt q) (tgt p))

  -- No file is the place of another, and no two have the same place.
  abbrev pub are_apart : List Text → Bool
  are_apart [] = true
  are_apart (p ∷ ps) = all (λ q. free p q && free q p) ps && are_apart ps

  pub are_apart-apart :
      (ps : List Text) (p q : Text)
      → are_apart ps ≡ true
      → contains ps p ≡ true
      → contains ps q ≡ true
      → apart T cfg faults active p q ≡ true
  unfolding contains
  are_apart-apart [] p q h m n = absurd (ground arith)
  are_apart-apart (r ∷ ps) p q h m n = ground (
    arith,
    are_apart-apart ps p q,
    contains-all (λ t. free r t && free t r) ps p,
    contains-all (λ t. free r t && free t r) ps q,
    text_eq_iff r p,
    text_eq_iff r q,
    text_eq_iff q p,
    text_eq_refl q,
  )
