-- ===== src/Filter/L3Proto/Keywords.antt =====
-- The filter of the network layer names the protocols that are asked for.
use cloud_run_tcpdump.Prelude.{
  if◌then◌else◌, any, ◌≡◌, refl, ◌∙◌, Bool, true, not, ◌||◌, List, [], ◌∷◌, ◌++◌,
}
use cloud_run_tcpdump.Text.{Text, codes, contains, equal_fold, comma, split, join, text_eq}
use cloud_run_tcpdump.Ext.{StringFormatter, IsPositional, Mapset, IsMapset, distinct}
use cloud_run_tcpdump.Filter.Compat.{Call, add_l3_proto, is_unset}
use cloud_run_tcpdump.Filter.Compat.{ipv4, ipv6}
use cloud_run_tcpdump.Filter.Protos.Laws.{
  IsDisjunction, get-IsDisjunction, get_calls, IsDisjunction-of_eq,
}
use cloud_run_tcpdump.Filter.Protos.Aliases.{
  Table, asks, listed, separate, first, any-names, any-known, made-listed, listed_calls,
}
use cloud_run_tcpdump.Filter.L3Proto.{default_filter, switch, get}

-- The keywords of the filter, each with the names of its protocol.
abbrev pub table : Table
table =
    (
      record { keyword = codes "ip"; calls = add_l3_proto ipv4 ∷ [] },
      codes "ip" ∷ codes "ip4" ∷ codes "ipv4" ∷ codes "4" ∷ codes "0x04" ∷ [],
    )
    ∷ (
      record { keyword = codes "ip6"; calls = add_l3_proto ipv6 ∷ [] },
      codes "ip6" ∷ codes "ipv6" ∷ codes "41" ∷ codes "0x29" ∷ [],
    )
    ∷ (record { keyword = codes "arp"; calls = [] }, codes "arp" ∷ codes "0x0806" ∷ [])
    ∷ []

abbrev keywords : List Text
keywords = codes "ip" ∷ codes "ip6" ∷ codes "arp" ∷ []

switch-first : (p : Text) → switch p ≡ first table p
unfolding switch
switch-first p = refl

table-separate : separate table ≡ true
unfolding contains text_eq
table-separate = refl

-- The keywords that a raw filter asks for: all three if it is empty, `ALL`, `ANY` or the default
-- filter in any case, or if it lists no name that is known; else those of the names in the list.
abbrev pub asked : Text → Text → Bool
asked raw k =
    if (is_unset raw || equal_fold raw default_filter) || not (any (listed table) (split raw comma))
    then contains keywords k
    else any (asks table k) (split raw comma)

module _ (F : StringFormatter) (P : IsPositional F) (S : Mapset) (L : IsMapset S) (raw : Text)
    (calls : List Call) where
  -- `Get` of the network layer always returns a filter, and the filter is `or` between exactly the
  -- keywords that the raw filter asks for, each written once: no text of the user gets into it.
  pub get_l3-asked : IsDisjunction (asked raw) (get F S raw calls).0
  unfolding get join distinct switch contains text_eq
  get_l3-asked =
      let is_default = is_unset raw || equal_fold raw default_filter in
      IsDisjunction-of_eq (get-IsDisjunction F P S L switch refl keywords refl is_default raw calls)
        λ k. rw (
          any-known switch table table-separate switch-first (split raw comma),
          any-names switch table table-separate switch-first k (split raw comma),
        )

  -- `Get` makes one call for each name of an IP protocol in the list, in the list's order, behind
  -- those made before it, and none if the first test picks the default filter.
  pub get_l3-listed_calls :
      (get F S raw calls).1
      ≡ calls
        ++ (if is_unset raw || equal_fold raw default_filter
            then []
            else listed_calls table (split raw comma))
  unfolding get join distinct switch contains text_eq
  get_l3-listed_calls =
      let is_default = is_unset raw || equal_fold raw default_filter in
      get_calls F P S L switch refl keywords refl is_default raw calls
      ∙ rw (made-listed switch table table-separate switch-first (split raw comma))
