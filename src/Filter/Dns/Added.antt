-- ===== src/Filter/Dns/Added.antt =====
-- Which addresses `hostsToIPs` hands to the compatibility filters.
use cloud_run_tcpdump.Prelude.{
  Bool-cases, any, any-append, if◌then◌else◌, ◌≡◌, inl, inr, Bool, false, not, ◌&&◌, ◌||◌, Option,
  none, some, List, [], ◌∷◌, arith,
}
use cloud_run_tcpdump.Text.{Text, text_eq, comma, split}
use cloud_run_tcpdump.Ext.{Mapset, Netip}
use cloud_run_tcpdump.Filter.Compat.{
  Call, add_l3_proto, add_l4_proto, add_port, add_tcp_flags, add_ipv4s, add_ipv6s, add_ipv4_ranges,
  add_ipv6_ranges, is_unset,
}
use cloud_run_tcpdump.Filter.Compat.Laws.{only_blank-split_set}
use cloud_run_tcpdump.Filter.Dns.{
  add_parsed, add_resolved, add_ips, add_host, add_hosts, hosts_to_ips,
}
use cloud_run_tcpdump.Filter.Dns.Found.{host_to_ips_lem}

-- The call hands this address to `AddIPv4s`, or else to `AddIPv6s`.
abbrev pub hands : Bool → Text → Call → Bool
hands four ip (add_l3_proto p) = false
hands four ip (add_l4_proto p) = false
hands four ip (add_port p) = false
hands four ip (add_tcp_flags t) = false
hands four ip (add_ipv4s t) = four && text_eq t ip
hands four ip (add_ipv6s t) = not four && text_eq t ip
hands four ip (add_ipv4_ranges t) = false
hands four ip (add_ipv6_ranges t) = false

abbrev pub handed : Bool → Text → List Call → Bool
handed four ip calls = any (hands four ip) calls

module _ (N : Netip) (four : Bool) (ip : Text) where
  abbrev pub has_version : Option N.Addr → Bool
  has_version none = false
  has_version (some addr) = if four then N.is4 addr else not (N.is4 addr)

  -- The text is this address, and of this version.
  abbrev pub found_text : Text → Bool
  found_text text = has_version (N.parse_addr text) && text_eq text ip

  abbrev pub found_texts : Option (List Text) → Bool
  found_texts none = false
  found_texts (some texts) = any found_text texts

  -- The host resolves to the address, written so.
  abbrev pub found_host : Text → Bool
  found_host host = not (is_unset host) && found_texts (N.lookup_host host)

  -- One of the hosts of the raw filter does.
  abbrev pub found_in : Text → Bool
  found_in raw = not (is_unset raw) && any found_host (split raw comma)

  module _ (S : Mapset) where
    handed-add_parsed :
        (text : Text) (o : Option N.Addr) (set : S.State) (calls : List Call)
        → handed four ip (add_parsed S N text o set calls).1
          ≡ (handed four ip calls || has_version o && text_eq text ip)
    unfolding add_parsed
    handed-add_parsed text none set calls = ground arith
    handed-add_parsed text (some addr) set calls =
        let call = if N.is4 addr then add_ipv4s text else add_ipv6s text in
        ground (arith, any-append (hands four ip) calls (call ∷ []))

    handed-add_ips :
        (texts : List Text) (st : S.State × List Call)
        → handed four ip (add_ips S N texts st).1 ≡ (handed four ip st.1 || any found_text texts)
    unfolding add_ips
    handed-add_ips [] st = ground arith
    handed-add_ips (text ∷ texts) (set, calls) = ground (
      arith,
      handed-add_ips texts (add_parsed S N text (N.parse_addr text) set calls),
      handed-add_parsed text (N.parse_addr text) set calls,
    )

    handed-add_resolved :
        (o : Option (List Text)) (st : S.State × List Call)
        → handed four ip (add_resolved S N o st).1 ≡ (handed four ip st.1 || found_texts o)
    unfolding add_resolved
    handed-add_resolved none st = ground arith
    handed-add_resolved (some texts) st = handed-add_ips texts st

    handed-add_host :
        (host : Text) (st : S.State × List Call)
        → handed four ip (add_host S N host st).1 ≡ (handed four ip st.1 || found_host host)
    unfolding add_host
    handed-add_host host st = elim (Bool-cases (is_unset host)) [
      | inl u ↦ rw (u, add_host) (ground arith)
      | inr u ↦
          rw (u, add_host, host_to_ips_lem N S host u) (handed-add_resolved (N.lookup_host host) st)
    ]

    handed-add_hosts :
        (hosts : List Text) (st : S.State × List Call)
        → handed four ip (add_hosts S N hosts st).1 ≡ (handed four ip st.1 || any found_host hosts)
    unfolding add_hosts
    handed-add_hosts [] st = ground arith
    handed-add_hosts (host ∷ hosts) st =
        ground (arith, handed-add_hosts hosts (add_host S N host st), handed-add_host host st)

    -- Behind `hostsToIPs`, those addresses were handed over that were before, or that one of the hosts
    -- resolves to.
    pub handed-hosts_to_ips :
        (raw : Text) (calls : List Call)
        → handed four ip (hosts_to_ips S N raw calls).1 ≡ (handed four ip calls || found_in raw)
    unfolding hosts_to_ips
    handed-hosts_to_ips raw calls =
        ground
          (arith, only_blank-split_set raw, handed-add_hosts (split raw comma) (S.new [], calls))
