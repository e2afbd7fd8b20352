-- ===== src/Filter/Ports/Kept.antt =====
-- Which ports the filter keeps.
use cloud_run_tcpdump.Prelude.{
  leb, if◌then◌else◌, Bool-cases, ◌≡◌, refl, sym, ◌∙◌, inl, inr, Bool, true, false, not, ◌&&◌, none,
  some, List, [], ◌∷◌, ◌++◌, map, append_assoc, append-nil, arith,
}
use cloud_run_tcpdump.Text.{Text, codes, text_eq, contains, to_lower, comma, split, value, max_u16}
use cloud_run_tcpdump.Text.Laws.{text_eq_iff, parse_uint-le}
use cloud_run_tcpdump.Ext.{StringFormatter, IsPositional, Mapset, IsMapset}
use cloud_run_tcpdump.Filter.Compat.{Call, add_port, is_unset, only_blank}
use cloud_run_tcpdump.Filter.Listing.{IsFilter, listing, listing-IsFilter}
use cloud_run_tcpdump.Filter.Ports.{port_of, visit, each, text_eq, split, to_lower, comma, get}

-- `ParseUint` keeps to 16 bits, with an error or without, so the last branch of a round is dead.
port_in_range : (p : Text) → leb (value (port_of p)) 0xFFFF ≡ true
port_in_range p = ground (arith, parse_uint-le max_u16 p)

-- The call for a text of the list; one that is no number counts as port 0.
abbrev pub call_of : Text → Call
call_of p = add_port (value (port_of p))

-- The texts for which a call is made.
pub passed : List Text → List Text
passed [] = []
passed (p ∷ ps) = let rest = passed ps in if is_unset p then rest else p ∷ rest

pub contains-passed :
    (ps : List Text) (t : Text) → contains (passed ps) t ≡ (contains ps t && not (is_unset t))
unfolding passed contains
contains-passed [] t = refl
contains-passed (p ∷ ps) t = ground (arith, contains-passed ps t, text_eq_iff p t)

module _ (S : Mapset) (L : IsMapset S) where
  visit-unset :
      (p : Text) (set : S.State) (calls : List Call)
      → is_unset p ≡ true
      → visit S p (set, calls) ≡ (S.remove p set, calls)
  unfolding visit
  visit-unset p set calls h = rw h

  visit-set :
      (p : Text) (set : S.State) (calls : List Call)
      → is_unset p ≡ false
      → visit S p (set, calls) ≡ (set, calls ++ (call_of p ∷ []))
  unfolding visit
  visit-set p set calls h = ground (arith, h, parse_uint-le max_u16 p)

  contains-each :
      (ps : List Text) (set : S.State) (calls : List Call) (t : Text)
      → contains (S.to_slice (each S ps (set, calls)).0) t
        ≡ (contains (S.to_slice set) t && not (contains ps t && is_unset t))
  unfolding each contains
  contains-each [] set calls t = ground arith
  contains-each (p ∷ ps) set calls t = elim (Bool-cases (is_unset p)) [
    | inl e ↦
        rw (visit-unset p set calls e, each)
          (ground (
            arith,
            contains-each ps (S.remove p set) calls t,
            L.contains-remove p set t,
            text_eq_iff p t,
          ))
    | inr e ↦
        rw (visit-set p set calls e, each)
          (ground (arith, contains-each ps set (calls ++ (call_of p ∷ [])) t, text_eq_iff p t))
  ]

  each_calls :
      (ps : List Text) (set : S.State) (calls : List Call)
      → (each S ps (set, calls)).1 ≡ calls ++ map call_of (passed ps)
  unfolding each passed
  each_calls [] set calls = sym (append-nil calls)
  each_calls (p ∷ ps) set calls = elim (Bool-cases (is_unset p)) [
    | inl e ↦ rw (visit-unset p set calls e, e, each) (each_calls ps (S.remove p set) calls)
    | inr e ↦
        rw (visit-set p set calls e, e, each)
          (each_calls ps set (calls ++ (call_of p ∷ []))
            ∙ append_assoc calls (call_of p ∷ []) (map call_of (passed ps)))
  ]

-- The parts of the raw filter, and those of them that name a port: neither empty nor `all` or
-- `any`.
abbrev pub parts : Text → List Text
parts raw = split (to_lower raw) comma

abbrev pub wanted : Text → Text → Bool
wanted raw p = contains (parts raw) p && not (is_unset p)

is_unset-nil : is_unset [] ≡ true
unfolding is_unset text_eq
is_unset-nil = refl

wanted_blank :
    (ps : List Text) (p : Text) → only_blank ps ≡ true → (contains ps p && not (is_unset p)) ≡ false
unfolding only_blank contains
wanted_blank [] p h = refl
wanted_blank (q ∷ []) p h = ground (arith, text_eq_iff q [], text_eq_iff q p, is_unset-nil)
wanted_blank (q ∷ r ∷ ps) p h = cc

parts_blank : (raw : Text) → text_eq raw [] ≡ true → only_blank (parts raw) ≡ true
unfolding text_eq only_blank split to_lower
parts_blank [] h = refl
parts_blank (c ∷ raw) h = cc

module _ (F : StringFormatter) (P : IsPositional F) (S : Mapset) (L : IsMapset S) (raw : Text)
    (calls : List Call) where
  abbrev last : S.State × List Call
  last = each S (S.each_order (S.new (parts raw))) (S.new (parts raw), calls)

  contains-last : (p : Text) → contains (S.to_slice last.0) p ≡ wanted raw p
  contains-last p =
      let set = S.new (parts raw) in
      ground (
        arith,
        contains-each S L (S.each_order set) set calls p,
        L.contains-each_order set p,
        L.contains-new (parts raw) p,
      )

  get_blank : only_blank (parts raw) ≡ true → get F S raw calls ≡ (none, calls)
  unfolding get
  get_blank e = ground arith

  get_full :
      only_blank (parts raw) ≡ false
      → get F S raw calls ≡ (
        if S.is_empty last.0 then none else some (listing F P S L (codes "port ") refl last.0),
        last.1,
      )
  unfolding get
  get_full e = ground (arith, parts_blank raw)

  -- `Get` returns `port a or port b …`, over exactly the parts of the lower-cased raw filter that
  -- are neither empty nor `all` or `any`, each once, and nothing if there is no such part. Whether
  -- a part is a number in range plays no role.
  pub get_ports-wanted : IsFilter (codes "port ") (wanted raw) (get F S raw calls).0
  get_ports-wanted = elim (Bool-cases (only_blank (parts raw))) [
    | inl e ↦ rw (get_blank e) (λ p. wanted_blank (parts raw) p e)
    | inr e ↦
        rw (get_full e)
          (listing-IsFilter F P S L (codes "port ") refl last.0 (wanted raw) contains-last)
  ]

  -- `Get` calls `AddPort` once for each text of a list that holds exactly the parts in the filter,
  -- with the number that the part reads as: 0 for a part that is no number, 65535 for one out of
  -- range. The calls made before stay in front.
  get_ports_calls :
      (order : List Text) × ((get F S raw calls).1 ≡ calls ++ map call_of order)
      × ((p : Text) → contains order p ≡ wanted raw p)
  get_ports_calls = elim (Bool-cases (only_blank (parts raw))) [
    | inl e ↦ (
      [],
      rw (get_blank e) (sym (append-nil calls)),
      λ p. unfold contains in sym (wanted_blank (parts raw) p e),
    )
    | inr e ↦
        let set = S.new (parts raw) in
        (
          passed (S.each_order set),
          rw (get_full e) (each_calls S L (S.each_order set) set calls),
          λ p. ground (
            arith,
            contains-passed (S.each_order set) p,
            L.contains-each_order set p,
            L.contains-new (parts raw) p,
          ),
        )
  ]
