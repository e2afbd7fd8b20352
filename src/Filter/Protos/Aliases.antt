-- ===== src/Filter/Protos/Aliases.antt =====
-- Tables of the names that stand for a keyword, against which the two `switch`es are checked.
use cloud_run_tcpdump.Prelude.{
  ◌++◌, if◌then◌else◌, Bool-cases, any, all, ◌≡◌, refl, inl, inr, Bool, true, false, not, ◌&&◌,
  ◌||◌, Option, none, some, List, [], ◌∷◌, arith,
}
use cloud_run_tcpdump.Text.{Text, text_eq, contains}
use cloud_run_tcpdump.Text.Laws.{text_eq_iff}
use cloud_run_tcpdump.Filter.Compat.{Call}
use cloud_run_tcpdump.Filter.Protos.{Case}
use cloud_run_tcpdump.Filter.Protos.Laws.{selects, is_case, calls_of, made, names, known}

-- The rows of a table: a case, and the names that stand for it.
abbrev pub Table : Type 0
Table = List (Case × List Text)

-- The name stands for the keyword.
abbrev pub asks : Table → Text → Text → Bool
asks [] k p = false
asks ((c, aliases) ∷ rows) k p = text_eq c.keyword k && contains aliases p || asks rows k p

-- The name stands for some keyword.
abbrev pub listed : Table → Text → Bool
listed [] p = false
listed ((c, aliases) ∷ rows) p = contains aliases p || listed rows p

-- The first row that lists the name.
abbrev pub first : Table → Text → Option Case
first [] p = none
first ((c, aliases) ∷ rows) p =
    let rest = first rows p in if contains aliases p then some c else rest

abbrev pub disjoint : List Text → List Text → Bool
disjoint xs ys = all (λ x. not (contains ys x)) xs

-- No name stands in two rows.
abbrev pub separate : Table → Bool
separate [] = true
separate ((c, aliases) ∷ rows) = all (λ r. disjoint aliases r.1) rows && separate rows

contains-disjoint :
    (xs ys : List Text) (p : Text)
    → disjoint xs ys ≡ true
    → contains xs p ≡ true
    → contains ys p ≡ false
unfolding contains
contains-disjoint [] ys p d h = cc
contains-disjoint (x ∷ xs) ys p d h = ground (arith, contains-disjoint xs ys p, text_eq_iff x p)

asks-disjoint :
    (xs : List Text) (rows : Table) (k p : Text)
    → all (λ r. disjoint xs r.1) rows ≡ true
    → contains xs p ≡ true
    → asks rows k p ≡ false
asks-disjoint xs [] k p d h = refl
asks-disjoint xs ((c, aliases) ∷ rows) k p d h =
    ground (arith, asks-disjoint xs rows k p, contains-disjoint xs aliases p)

pub selects-first :
    (rows : Table) (k p : Text) → separate rows ≡ true → selects k (first rows p) ≡ asks rows k p
selects-first [] k p d = refl
selects-first ((c, aliases) ∷ rows) k p d = elim (Bool-cases (contains aliases p)) [
  | inl e ↦ rw e (ground (arith, asks-disjoint aliases rows k p))
  | inr e ↦ rw e (ground (arith, selects-first rows k p))
]

pub is_case-first : (rows : Table) (p : Text) → is_case (first rows p) ≡ listed rows p
is_case-first [] p = refl
is_case-first ((c, aliases) ∷ rows) p = elim (Bool-cases (contains aliases p)) [
  | inl e ↦ rw e
  | inr e ↦ rw e (is_case-first rows p)
]

-- The calls of the rows that the names pick, in order.
abbrev pub listed_calls : Table → List Text → List Call
listed_calls rows [] = []
listed_calls rows (p ∷ ps) = calls_of (first rows p) ++ listed_calls rows ps

-- A `switch` that picks the first row of a table, where no two rows share a name.
module _ (switch : Text → Option Case) (rows : Table) (d : separate rows ≡ true)
    (reads : (p : Text) → switch p ≡ first rows p) where
  pub any-names : (k : Text) (ps : List Text) → any (names switch k) ps ≡ any (asks rows k) ps
  any-names k [] = refl
  any-names k (p ∷ ps) = rw (reads p, selects-first rows k p d, any-names k ps)

  pub any-known : (ps : List Text) → any (known switch) ps ≡ any (listed rows) ps
  any-known [] = refl
  any-known (p ∷ ps) = rw (reads p, is_case-first rows p, any-known ps)

  pub made-listed : (ps : List Text) → made switch ps ≡ listed_calls rows ps
  made-listed [] = refl
  made-listed (p ∷ ps) = rw (reads p, made-listed ps)
