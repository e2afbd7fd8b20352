-- ===== src/Filter/Provider/Applied.antt =====
-- What `applyFilter` writes.
use cloud_run_tcpdump.Prelude.{
  if◌then◌else◌, Bool-cases, ◌≡◌, refl, ap, ◌∙◌, inl, inr, true, false, Option, none, some, List,
  [], ◌∷◌, ◌++◌, map, append_assoc, arith,
}
use cloud_run_tcpdump.Text.{Text, codes, text_eq, join}
use cloud_run_tcpdump.Ext.{StringFormatter, IsPositional, lit, arg, Mapset, Pcap, Netip}
use cloud_run_tcpdump.Filter.Compat.{Call}
use cloud_run_tcpdump.Filter.Provider.{Provider, get, apply_filter, Mode, and, combine, join_filter}
use cloud_run_tcpdump.Filter.Provider.Methods.{apply, apply-apply_filter}

-- A filter in parentheses.
abbrev pub paren : Text → Text
paren t = codes "(" ++ (t ++ codes ")")

-- The filters that are there and not empty.
abbrev pub effective : List (Option Text) → List Text
effective [] = []
effective (none ∷ os) = effective os
effective (some t ∷ os) = let rest = effective os in if text_eq t [] then rest else t ∷ rest

-- Filters in parentheses with ` and ` in between; nil for none.
abbrev pub joined : List Text → Option Text
joined [] = none
joined (t ∷ ts) = some (join (map paren (t ∷ ts)) (codes " and "))

module _ (F : StringFormatter) (S : Mapset) (C : Pcap) (N : Netip) where
  -- The filters joined one after the other by `and`.
  unfoldable pub join_all : List (Option Text) → Option Text → Option Text
  join_all [] src = src
  join_all (o ∷ os) src = join_all os (join_filter F S C N src o and)

  -- `Apply` of one provider after the other, by `and`.
  unfoldable pub apply_all : List Provider → Option Text → List Call → Option Text × List Call
  apply_all [] src calls = (src, calls)
  apply_all (p ∷ ps) src calls =
      let (src', calls') = apply F S C N p src and calls in apply_all ps src' calls'

  -- What their `Get` returns.
  unfoldable pub gets : List Provider → List Call → List (Option Text)
  gets [] calls = []
  gets (p ∷ ps) calls = let (filter, calls') = get F S C N p calls in filter ∷ gets ps calls'

module _ (F : StringFormatter) (P : IsPositional F) (S : Mapset) (C : Pcap) (N : Netip) where
  apply_one :
      (src t : Text)
      → text_eq src [] ≡ false
      → text_eq t [] ≡ false
      → join_filter F S C N (some src) (some t) and ≡ some (src ++ (codes " and " ++ paren t))
  unfolding join_filter combine
  apply_one src t hs ht =
      rw
        (
          hs,
          ht,
          P.format-template (arg 0 ∷ lit (codes " and (") ∷ arg 1 ∷ lit (codes ")") ∷ [])
              (src ∷ t ∷ []) refl,
        )
        refl

  apply_none : (src : Option Text) (mode : Mode) → join_filter F S C N src none mode ≡ src
  unfolding join_filter
  apply_none src mode = refl

  apply_empty :
      (src t : Text) (mode : Mode)
      → text_eq t [] ≡ true
      → join_filter F S C N (some src) (some t) mode ≡ some src
  unfolding join_filter
  apply_empty src t mode h = rw (h) refl

  apply_first :
      (t : Text) (mode : Mode)
      → text_eq t [] ≡ false
      → join_filter F S C N none (some t) mode ≡ some (paren t)
  unfolding join_filter
  apply_first t mode h =
      rw (h, P.format-template (lit (codes "(") ∷ arg 0 ∷ lit (codes ")") ∷ []) (t ∷ []) refl) refl

  apply_first_empty :
      (t : Text) (mode : Mode) → text_eq t [] ≡ true → join_filter F S C N none (some t) mode ≡ none
  unfolding join_filter
  apply_first_empty t mode h = rw (h) refl

  longer : (s t : Text) → text_eq s [] ≡ false → text_eq (s ++ t) [] ≡ false
  unfolding text_eq
  longer [] t h = ground arith
  longer (c ∷ s) t h = refl

  join_more :
      (s p sep : Text) (ps : List Text) → join ((s ++ (sep ++ p)) ∷ ps) sep ≡ join (s ∷ p ∷ ps) sep
  unfolding join
  join_more s p sep [] = refl
  join_more s p sep (q ∷ ps) = simp append_assoc

  join_all-some :
      (os : List (Option Text)) (src : Text)
      → text_eq src [] ≡ false
      → join_all F S C N os (some src)
        ≡ some (join (src ∷ map paren (effective os)) (codes " and "))
  unfolding join_all join
  join_all-some [] src h = refl
  join_all-some (none ∷ os) src h = rw (apply_none (some src) and) (join_all-some os src h)
  join_all-some (some t ∷ os) src h = elim (Bool-cases (text_eq t [])) [
    | inl e ↦ rw (apply_empty src t and e, e) (join_all-some os src h)
    | inr e ↦
        rw (apply_one src t h e, e)
          (join_all-some os (src ++ (codes " and " ++ paren t)) (longer src _ h)
            ∙ ap some (join_more src (paren t) (codes " and ") (map paren (effective os))))
  ]

  joined_all : (os : List (Option Text)) → join_all F S C N os none ≡ joined (effective os)
  unfolding join_all text_eq
  joined_all [] = refl
  joined_all (none ∷ os) = rw (apply_none none and) (joined_all os)
  joined_all (some t ∷ os) = elim (Bool-cases (text_eq t [])) [
    | inl e ↦ rw (apply_first_empty t and e, e) (joined_all os)
    | inr e ↦ rw (apply_first t and e, e) (join_all-some os (paren t) refl)
  ]

  apply_all-join_all :
      (ps : List Provider) (src : Option Text) (calls : List Call)
      → (apply_all F S C N ps src calls).0 ≡ join_all F S C N (gets F S C N ps calls) src
  unfolding apply_all gets join_all apply_filter
  apply_all-join_all [] src calls = refl
  apply_all-join_all (p ∷ ps) src calls =
      rw (apply_all, apply-apply_filter F S C N p src and calls) (apply_all-join_all ps _ _)

  -- Providers that are applied by `and` one after the other, from a nil filter: what each
  -- `Get` returns, but for nil and empty filters, each in parentheses, in the order of the
  -- providers, with ` and ` in between; and a nil filter if none is left.
  pub apply_all-joined :
      (ps : List Provider) (calls : List Call)
      → (apply_all F S C N ps none calls).0 ≡ joined (effective (gets F S C N ps calls))
  apply_all-joined ps calls = apply_all-join_all ps none calls ∙ joined_all (gets F S C N ps calls)
