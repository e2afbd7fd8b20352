-- ===== src/Filter/L4Proto/Keywords.antt =====
-- The filter of the transport layer names the protocols that are asked for.
use cloud_run_tcpdump.Prelude.{
  if◌then◌else◌, any, ◌≡◌, refl, ◌∙◌, Bool, true, not, ◌||◌, List, [], ◌∷◌, ◌++◌,
}
use cloud_run_tcpdump.Text.{Text, codes, contains, comma, split, join, text_eq}
use cloud_run_tcpdump.Ext.{StringFormatter, IsPositional, Mapset, IsMapset, distinct}
use cloud_run_tcpdump.Filter.Compat.{Call, add_l4_proto}
use cloud_run_tcpdump.Filter.Compat.{tcp, udp, icmp, icmp6}
use cloud_run_tcpdump.Filter.Protos.Laws.{
  IsDisjunction, get-IsDisjunction, get_calls, IsDisjunction-of_eq,
}
use cloud_run_tcpdump.Filter.Protos.Aliases.{
  Table, asks, listed, separate, first, any-names, any-known, made-listed, listed_calls,
}
use cloud_run_tcpdump.Filter.L4Proto.{is_default, switch, get}

-- The keywords of the filter, each with the names of its protocol.
abbrev pub table : Table
table =
    (
      record { keyword = codes "tcp"; calls = add_l4_proto tcp ∷ [] },
      codes "tcp" ∷ codes "6" ∷ codes "0x06" ∷ [],
    )
    ∷ (
      record { keyword = codes "udp"; calls = add_l4_proto udp ∷ [] },
      codes "udp" ∷ codes "17" ∷ codes "0x11" ∷ [],
    )
    ∷ (
      record { keyword = codes "icmp"; calls = add_l4_proto icmp ∷ [] },
      codes "icmp" ∷ codes "icmp4" ∷ codes "1" ∷ codes "0x01" ∷ [],
    )
    ∷ (
      record { keyword = codes "icmp6"; calls = add_l4_proto icmp6 ∷ [] },
      codes "icmp6" ∷ codes "58" ∷ codes "0x3A" ∷ [],
    )
    ∷ []

abbrev keywords : List Text
keywords = codes "tcp" ∷ codes "udp" ∷ codes "icmp" ∷ codes "icmp6" ∷ []

switch-first : (p : Text) → switch p ≡ first table p
unfolding switch
switch-first p = refl

table-separate : separate table ≡ true
unfolding contains text_eq
table-separate = refl

-- The keywords that a raw filter asks for: all four if it is empty, `ALL`, `ANY` or the default
-- filter in any case, `23` or `0x17`, or if it lists no name that is known; else those of the
-- names in the list.
abbrev pub asked : Text → Text → Bool
asked raw k =
    if is_default raw || not (any (listed table) (split raw comma))
    then contains keywords k
    else any (asks table k) (split raw comma)

module _ (F : StringFormatter) (P : IsPositional F) (S : Mapset) (L : IsMapset S) (raw : Text)
    (calls : List Call) where
  -- `Get` of the transport layer always returns a filter, and the filter is `or` between
  -- exactly the
  -- keywords that the raw filter asks for, each written once: no text of the user gets into it.
  pub get_l4-asked : IsDisjunction (asked raw) (get F S raw calls).0
  unfolding get join distinct switch contains text_eq
  get_l4-asked =
      IsDisjunction-of_eq
        (get-IsDisjunction F P S L switch refl keywords refl (is_default raw) raw calls)
        λ k. rw (
          any-known switch table table-separate switch-first (split raw comma),
          any-names switch table table-separate switch-first k (split raw comma),
        )

  -- `Get` makes one call for each known name in the list, in the list's order, behind
  -- those made before it, and none if the first test picks the default filter.
  pub get_l4-listed_calls :
      (get F S raw calls).1
      ≡ calls ++ (if is_default raw then [] else listed_calls table (split raw comma))
  unfolding get join distinct switch contains text_eq
  get_l4-listed_calls =
      get_calls F P S L switch refl keywords refl (is_default raw) raw calls
      ∙ rw (made-listed switch table table-separate switch-first (split raw comma))
