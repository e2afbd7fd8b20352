-- ===== src/Filter/Ip/Added.antt =====
-- Which addresses `IPFilterProvider.Get` hands to the compatibility filters.
use cloud_run_tcpdump.Prelude.{
  Bool-cases, any, any-append, if◌then◌else◌, ◌≡◌, refl, ◌∙◌, inl, inr, Bool, true, false, not,
  ◌&&◌, ◌||◌, Option, none, some, List, [], ◌∷◌, arith,
}
use cloud_run_tcpdump.Text.{Text, text_eq, contains}
use cloud_run_tcpdump.Text.Laws.{text_eq_iff}
use cloud_run_tcpdump.Ext.{StringFormatter, IsPositional, Mapset, IsMapset, Netip}
use cloud_run_tcpdump.Filter.Compat.{
  Call, add_ipv4s, add_ipv6s, add_ipv4_ranges, add_ipv6_ranges, is_unset,
}
use cloud_run_tcpdump.Filter.Dns
use cloud_run_tcpdump.Filter.Dns.Found
use cloud_run_tcpdump.Filter.Dns.Added.{hands, handed, found_in, handed-hosts_to_ips}
use cloud_run_tcpdump.Filter.Ip.{
  Gathered, gather_net, gather_parsed, gather_one, gather, get_ips_and_nets, covers, ip_is4, ip_is6,
  visit, each, drop_covered, add_found, sets, get,
}
use cloud_run_tcpdump.Filter.Ip.Covered.{has, has-each, has-add_found}
use cloud_run_tcpdump.Filter.Ip.Gathered.{parts, gives_ip, gathered-ips}
use cloud_run_tcpdump.Filter.Ip.First.{head, first_net, first_net_blank, head-get_ips_and_nets}

module _ (N : Netip) (four : Bool) (ip : Text) where
  abbrev pub is_version : Bool
  is_version = if four then ip_is4 N ip else not (ip_is4 N ip) && ip_is6 N ip

  -- There is a network, and it does not contain the address.
  abbrev pub left_by : Option Text → Bool
  left_by none = false
  left_by (some net) = not (covers N net ip)

  module _ (S : Mapset) (L : IsMapset S) where
    handed-visit :
        (net t : Text) (set : S.State) (calls : List Call)
        → handed four ip (visit S N net t (set, calls)).1
          ≡ (handed four ip calls || text_eq t ip && not (covers N net ip) && is_version)
    unfolding visit
    handed-visit net t set calls = ground (
      arith,
      any-append (hands four ip) calls (add_ipv4s t ∷ []),
      any-append (hands four ip) calls (add_ipv6s t ∷ []),
      text_eq_iff t ip,
    )

    handed-each :
        (net : Text) (ts : List Text) (st : S.State × List Call)
        → handed four ip (each S N net ts st).1
          ≡ (handed four ip st.1 || contains ts ip && not (covers N net ip) && is_version)
    unfolding each contains
    handed-each net [] st = ground arith
    handed-each net (t ∷ ts) (set, calls) =
        ground
          (arith, handed-each net ts (visit S N net t (set, calls)), handed-visit net t set calls)

    -- The loop over the networks hands over what the first of them leaves.
    handed-drop_covered :
        (nets : List Text) (st : S.State × List Call)
        → handed four ip (drop_covered S N nets st).1
          ≡ (handed four ip st.1 || left_by (head nets) && has S L N st ip && is_version)
    unfolding drop_covered
    handed-drop_covered [] st = ground arith
    handed-drop_covered (net ∷ nets) st = ground (
      arith,
      handed-drop_covered nets (each S N net (S.each_order st.0) st),
      handed-each net (S.each_order st.0) st,
      has-each S L N net (S.each_order st.0) st ip,
      L.contains-each_order st.0 ip,
    )

  module _ (F : StringFormatter) where
    handed-gather_net :
        (text : Text) (o : Option N.Prefix) (g : Gathered)
        → handed four ip (gather_net F N text o g).calls ≡ handed four ip g.calls
    unfolding gather_net
    handed-gather_net text none g = refl
    handed-gather_net text (some net) g = ground (
      arith,
      any-append (hands four ip) g.calls (add_ipv4_ranges text ∷ []),
      any-append (hands four ip) g.calls (add_ipv6_ranges text ∷ []),
    )

    handed-gather_parsed :
        (text : Text) (o : Option N.Addr) (g : Gathered)
        → handed four ip (gather_parsed F N text o g).calls ≡ handed four ip g.calls
    unfolding gather_parsed
    handed-gather_parsed text none g = handed-gather_net text (N.parse_prefix text) g
    handed-gather_parsed text (some addr) g = ground arith

    handed-gather_one :
        (text : Text) (g : Gathered)
        → handed four ip (gather_one F N text g).calls ≡ handed four ip g.calls
    unfolding gather_one
    handed-gather_one text g = ground (arith, handed-gather_parsed text (N.parse_addr text) g)

    handed-gather :
        (texts : List Text) (g : Gathered)
        → handed four ip (gather F N texts g).calls ≡ handed four ip g.calls
    unfolding gather
    handed-gather [] g = refl
    handed-gather (text ∷ texts) g =
        handed-gather texts (gather_one F N text g) ∙ handed-gather_one text g

    handed-get_ips_and_nets :
        (ipv4 ipv6 : Text) (calls : List Call)
        → handed four ip (get_ips_and_nets F N ipv4 ipv6 calls).calls ≡ handed four ip calls
    unfolding get_ips_and_nets
    handed-get_ips_and_nets ipv4 ipv6 calls =
        elim (Bool-cases (text_eq ipv4 [] && text_eq ipv6 [])) [
          | inl e ↦ rw (get_ips_and_nets, e)
          | inr e ↦ rw (get_ips_and_nets, e) (handed-gather _ _)
        ]

module _ (F : StringFormatter) (P : IsPositional F) (S : Mapset) (L : IsMapset S) (N : Netip)
    (ipv4 ipv6 hosts : Text) (calls : List Call) where
  -- The address is a part of the raw filters for addresses, or one of the hosts resolves to it.
  abbrev pub asked_ip : Text → Bool
  asked_ip ip = any (gives_ip N ip) (parts ipv4 ipv6) || Found.wanted N hosts ip

  blank_hosts :
      (four : Bool) (ip : Text) → text_eq hosts [] ≡ true → found_in N four ip hosts ≡ false
  unfolding is_unset
  blank_hosts four ip h = ground arith

  -- Which addresses `Get` hands to `AddIPv4s`, and which to `AddIPv6s`, beside those that were handed
  -- over before: those that its hosts resolve to,
  -- and those asked for, of that version, that the first network does not contain, if there is a
  -- network; the other networks have no say, and without a network no address that is asked for is
  -- handed over but those of the hosts.
  pub get_calls-first_net :
      (four : Bool) (ip : Text)
      → handed four ip (get F S N ipv4 ipv6 hosts calls).1 ≡ (
          handed four ip calls
          || found_in N four ip hosts
          || left_by N four ip (first_net N (parts ipv4 ipv6))
            && asked_ip ip
            && is_version N four ip)
  unfolding get sets
  get_calls-first_net four ip =
      let g = get_ips_and_nets F N ipv4 ipv6 calls in
      let found = Dns.hosts_to_ips S N hosts g.calls in
      let start = add_found S N found.0 (S.new g.ips) in
      elim (Bool-cases (text_eq ipv4 [] && text_eq ipv6 [] && text_eq hosts [])) [
        | inl e ↦
            let e4 : ipv4 ≡ [] = ground (arith, text_eq_iff ipv4 []) in
            let e6 : ipv6 ≡ [] = ground (arith, text_eq_iff ipv6 []) in
            rw (get, e, e4, e6, first_net_blank N F P) (ground (arith, blank_hosts four ip))
        | inr e ↦
            rw (get, e, sets)
              (ground (
                arith,
                handed-drop_covered N four ip S L g.nets (start, found.1),
                handed-hosts_to_ips N four ip S hosts g.calls,
                handed-get_ips_and_nets N four ip F ipv4 ipv6 calls,
                head-get_ips_and_nets N F P ipv4 ipv6 calls,
                has-add_found S L N found.0 (S.new g.ips) ip,
                L.contains-new g.ips ip,
                gathered-ips N F P ipv4 ipv6 calls ip,
                Found.hosts_to_ips-wanted N S L hosts g.calls ip,
              ))
      ]
