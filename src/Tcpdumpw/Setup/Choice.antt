-- ===== src/Tcpdumpw/Setup/Choice.antt =====
-- Which of the two kinds of filter is used.
use mathlib.Core.Bool.{or-true}
use cloud_run_tcpdump.Prelude.{
  if◌then◌else◌, Bool-cases, is_nil, ◌≡◌, refl, sym, inl, inr, Bool, true, false, not, ◌&&◌, ◌||◌,
  List, [], ◌∷◌, ◌++◌, append-nil, arith,
}
use cloud_run_tcpdump.Text.{Text, codes, text_eq, equal_fold}
use cloud_run_tcpdump.Text.Laws.{text_eq_refl, text_eq_iff}
use cloud_run_tcpdump.Ext.{StringFormatter, Mapset, Pcap, Netip}
use cloud_run_tcpdump.Filter.Compat.{is_unset}
use cloud_run_tcpdump.Filter.Provider
use cloud_run_tcpdump.Filter.Ip
use cloud_run_tcpdump.Filter.Provider.{Provider}
use cloud_run_tcpdump.Filter.Provider.Factory.{
  new_l3_proto_filter_provider, new_l4_proto_filter_provider, new_ports_filter_provider,
  new_tcp_flags_filter_provider, new_ip_filter_provider, new_ip, new_dns_from_raw_filter, new_dns,
}
use cloud_run_tcpdump.Tcpdumpw.Setup.{
  Options, Chosen, use_filter, append_filter, append_ip_filter, use_found, use_filter,
  simple_filters, trim_space, given_filter, choose,
}

exclusive_default :
    (C : Pcap) (ps : List Provider)
    → text_eq C.default_filter [] ≡ false
    → text_eq (if is_nil ps && true then C.default_filter else []) [] ≡ not (is_nil ps)
exclusive_default C [] h = h
exclusive_default C (p ∷ ps) h = text_eq_refl []

-- The raw filter is used, by a provider of this kind.
abbrev pub used : Text → (Text → Provider) → List Provider
used raw factory = if is_unset raw then [] else factory raw ∷ []

module _ (F : StringFormatter) (S : Mapset) (C : Pcap) (N : Netip) where
  append_filter_filters :
      (raw : Text) (factory : Text → Provider) (st : Chosen)
      → (append_filter F S C N raw factory st).filters ≡ st.filters ++ used raw factory
  unfolding append_filter use_filter
  append_filter_filters raw factory st = elim (Bool-cases (is_unset raw)) [
    | inl e ↦ rw (e, append_filter) (sym (append-nil st.filters))
    | inr e ↦ rw (e, append_filter)
  ]

  -- The IP provider is used unless all three of its raw filters are empty.
  abbrev pub no_ip : Options → Bool
  no_ip o = text_eq o.ipv4 [] && text_eq o.ipv6 [] && text_eq o.hosts []

  append_ip_filter_filters :
      (o : Options) (st : Chosen)
      → (append_ip_filter F S C N o st).filters
        ≡ st.filters ++ (if no_ip o then [] else new_ip_filter_provider o.ipv4 o.ipv6 o.hosts ∷ [])
  unfolding append_ip_filter use_found use_filter Provider.get Ip.get new_ip_filter_provider new_ip
      new_dns_from_raw_filter new_dns
  append_ip_filter_filters o st = elim (Bool-cases (no_ip o)) [
    | inl e ↦
        rw (e, append_ip_filter, Provider.get, Ip.get, use_found) (sym (append-nil st.filters))
    | inr e ↦ rw (e, append_ip_filter, Provider.get, Ip.get, use_found)
  ]

  -- The providers that the options ask for, in the order of `main`.
  abbrev pub asked : Options → List Provider
  asked o =
      (((used o.l3_protos new_l3_proto_filter_provider
            ++ used o.l4_protos new_l4_proto_filter_provider)
          ++ used o.ports_list new_ports_filter_provider)
        ++ used o.flags new_tcp_flags_filter_provider)
      ++ (if no_ip o then [] else new_ip_filter_provider o.ipv4 o.ipv6 o.hosts ∷ [])

  simple_filters-asked : (o : Options) → (simple_filters F S C N o).filters ≡ asked o
  unfolding simple_filters
  simple_filters-asked o = rw (
    append_ip_filter_filters o _,
    append_filter_filters o.flags new_tcp_flags_filter_provider _,
    append_filter_filters o.ports_list new_ports_filter_provider _,
    append_filter_filters o.l4_protos new_l4_proto_filter_provider _,
    append_filter_filters o.l3_protos new_l3_proto_filter_provider _,
  )

  -- With a filter of its own, outside the compatibility mode, the capture uses that filter, without
  -- blanks at its ends, and no provider. Otherwise it uses the providers of the options that are
  -- neither empty nor `ALL` or `ANY`, in the order of `main`, and the IP provider if one of its
  -- three options is not empty, be it `ALL`; and no filter, but for the default one if no provider is left
  -- outside the compatibility mode.
  pub choose-asked :
      (o : Options)
      → let simple =
          o.compat || equal_fold o.filter (codes "DISABLED") || text_eq (trim_space o.filter) [] in
        ((choose F S C N o).1.filters ≡ (if simple then asked o else []))
        × ((choose F S C N o).0 ≡ (
            if simple
            then (if is_nil (asked o) && not o.compat then C.default_filter else [])
            else trim_space o.filter))
  unfolding choose given_filter
  choose-asked o = elim (Bool-cases (o.compat || equal_fold o.filter (codes "DISABLED"))) [
    | inl e ↦
        rw (e, choose, given_filter)
          (rw (text_eq_refl [], or-true o.compat, simple_filters-asked o) (refl, refl))
    | inr e ↦ elim (Bool-cases (text_eq (trim_space o.filter) [])) [
      | inl f ↦
          let blank : trim_space o.filter ≡ [] = (text_eq_iff (trim_space o.filter) []).0 f in
          rw (e, f, choose, given_filter)
            (rw (or-true o.compat, simple_filters-asked o, blank) (refl, refl))
      | inr f ↦
          let gen2 : o.compat ≡ false = ground arith in
          rw (e, f, choose, given_filter) (rw gen2 (refl, refl))
    ]
  ]

  -- Outside the compatibility mode there is a filter of its own or there are providers, never both
  -- and never neither, if the default filter is not empty.
  choose-exclusive :
      (o : Options)
      → text_eq C.default_filter [] ≡ false
      → o.compat ≡ false
      → text_eq (choose F S C N o).0 [] ≡ not (is_nil (choose F S C N o).1.filters)
  choose-exclusive o some_default gen2 =
      let simple =
        o.compat || equal_fold o.filter (codes "DISABLED") || text_eq (trim_space o.filter) [] in
      let (providers, filter) = choose-asked o in
      elim (Bool-cases simple) [
        | inl e ↦ rw (providers, filter, e, gen2) (exclusive_default C (asked o) some_default)
        | inr e ↦ rw (providers, filter, e) (ground arith)
      ]
