-- ===== src/Tcpdumpw/Setup/Calls.antt =====
-- What the compatibility filters and the capture get of the providers that are chosen.
use cloud_run_tcpdump.Prelude.{
  any, any-append, Bool-cases, ◌≡◌, refl, ◌∙◌, inl, inr, Bool, ◌&&◌, ◌||◌, none, [], ◌∷◌, map,
  arith,
}
use cloud_run_tcpdump.Text.{Text, text_eq}
use cloud_run_tcpdump.Ext.{StringFormatter, IsPositional, Mapset, Pcap, Netip}
use cloud_run_tcpdump.Filter.Compat.{Call, is_unset}
use cloud_run_tcpdump.Filter.Ip
use cloud_run_tcpdump.Filter.Provider
use cloud_run_tcpdump.Filter.Provider.{Provider}
use cloud_run_tcpdump.Filter.Provider.Factory.{
  new_l3_proto_filter_provider, new_l4_proto_filter_provider, new_ports_filter_provider,
  new_tcp_flags_filter_provider, new_ip_filter_provider, new_ip, new_dns_from_raw_filter, new_dns,
}
use cloud_run_tcpdump.Filter.Provider.Applied.{apply_all, apply_all-joined, joined, effective}
use cloud_run_tcpdump.Filter.Provider.Framed.{
  filter_of, added, adds, gets-filter_of, any-get, any-apply_all,
}
use cloud_run_tcpdump.Tcpdumpw.Setup.{
  Options, Chosen, use_filter, append_filter, append_ip_filter, use_found, simple_filters,
  given_filter, choose,
}

module _ (F : StringFormatter) (S : Mapset) (C : Pcap) (N : Netip) where
  -- The compatibility filters had these calls, and no others, each at least once.
  abbrev pub CallsOf : Chosen → Type 0
  CallsOf st = (q : Call → Bool) → any q st.calls ≡ adds F S C N q st.filters

  use_filter-CallsOf : (p : Provider) (st : Chosen) → CallsOf st → CallsOf (use_filter F S C N p st)
  unfolding use_filter Provider.string
  use_filter-CallsOf p st h q = ground (
    arith,
    h q,
    any-get F S C N q p st.calls,
    any-append (λ (r : Provider). any q (added F S C N r)) st.filters (p ∷ []),
  )

  append_filter-CallsOf :
      (raw : Text) (factory : Text → Provider) (st : Chosen)
      → CallsOf st
      → CallsOf (append_filter F S C N raw factory st)
  unfolding append_filter
  append_filter-CallsOf raw factory st h q = elim (Bool-cases (is_unset raw)) [
    | inl e ↦ rw (e, append_filter) (h q)
    | inr e ↦ rw (e, append_filter) (use_filter-CallsOf (factory raw) st h q)
  ]

  -- A provider that had a `Get` before.
  use_tried-CallsOf :
      (p : Provider) (st : Chosen)
      → CallsOf st
      → CallsOf (
          use_filter F S C N p
            (record { filters = st.filters; calls = (Provider.get F S C N p st.calls).1 }))
  unfolding use_filter Provider.string
  use_tried-CallsOf p st h q = ground (
    arith,
    h q,
    any-get F S C N q p st.calls,
    any-get F S C N q p (Provider.get F S C N p st.calls).1,
    any-append (λ (r : Provider). any q (added F S C N r)) st.filters (p ∷ []),
  )

  append_ip_filter-CallsOf :
      (o : Options) (st : Chosen) → CallsOf st → CallsOf (append_ip_filter F S C N o st)
  unfolding append_ip_filter use_found Provider.get Ip.get new_ip_filter_provider new_ip
      new_dns_from_raw_filter new_dns
  append_ip_filter-CallsOf o st h q =
      elim (Bool-cases (text_eq o.ipv4 [] && text_eq o.ipv6 [] && text_eq o.hosts [])) [
        | inl e ↦ rw (e, append_ip_filter, Provider.get, Ip.get, use_found) (h q)
        | inr e ↦
            let used = use_tried-CallsOf (new_ip_filter_provider o.ipv4 o.ipv6 o.hosts) st h q in
            rw (e, append_ip_filter, Provider.get, Ip.get, use_found) (rw e at used)
      ]

  simple_filters-CallsOf : (o : Options) → CallsOf (simple_filters F S C N o)
  unfolding simple_filters
  simple_filters-CallsOf o = append_ip_filter-CallsOf o _ (
      append_filter-CallsOf o.flags new_tcp_flags_filter_provider _ (
        append_filter-CallsOf o.ports_list new_ports_filter_provider _ (
          append_filter-CallsOf o.l4_protos new_l4_proto_filter_provider _
            (append_filter-CallsOf o.l3_protos new_l3_proto_filter_provider _ (λ q. refl)))))

  -- Where the resolver and the sets answer the same whenever `main` asks them.
  choose-CallsOf : (o : Options) → CallsOf (choose F S C N o).1
  unfolding choose
  choose-CallsOf o q = elim (Bool-cases (o.compat || text_eq (given_filter F S C N o) [])) [
    | inl e ↦ rw (e, choose) (simple_filters-CallsOf o q)
    | inr e ↦ rw (e, choose) refl
  ]

module _ (F : StringFormatter) (P : IsPositional F) (C : Pcap) where
  -- The providers that are chosen, with the addresses `N` and sets `S`, run `Get` again when they are
  -- applied by `and` to no filter, with addresses `N'` and sets `S'` that may differ: they give the
  -- filters that each returns then on its own, but for nil and empty ones, in parentheses, with ` and `
  -- in between, or a nil filter if none is left; and the compatibility filters have exactly the calls
  -- that they had when the providers were chosen, and those that the providers make then on their own.
  pub choose-apply_all :
      (S S' : Mapset) (N N' : Netip) (o : Options)
      → let st = (choose F S C N o).1 in
        let applied = apply_all F S' C N' st.filters none st.calls in
        (applied.0 ≡ joined (effective (map (filter_of F S' C N') st.filters)))
        × ((q : Call → Bool)
            → any q applied.1 ≡ (any q st.calls || any (λ p. any q (added F S' C N' p)) st.filters))
  choose-apply_all S S' N N' o =
      let st = (choose F S C N o).1 in
      (
        apply_all-joined F P S' C N' st.filters st.calls
            ∙ rw (gets-filter_of F S' C N' st.filters st.calls) refl,
        λ q. any-apply_all F S' C N' q st.filters none st.calls,
      )
