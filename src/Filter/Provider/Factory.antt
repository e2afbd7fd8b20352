-- ===== src/Filter/Provider/Factory.antt =====
-- How providers are made: `newPcapFilterProvider` and the functions `New…FilterProvider` of
-- filter_provider.go, over the constructors in the file of each provider. The compatibility filters,
-- which all of them are handed, are the list of calls that `get` takes.
use cloud_run_tcpdump.Text.{Text}
use cloud_run_tcpdump.Filter.Provider.{
  PcapFilter, DnsFilterProvider, Provider, l3_proto, l4_proto, ports, tcp_flags, dns, ip,
}

unfoldable pub new_pcap_filter : Text → PcapFilter
new_pcap_filter raw = record { raw = raw }

unfoldable pub new_pcap_filter_provider : Text → (PcapFilter → Provider) → Provider
new_pcap_filter_provider raw factory = factory (new_pcap_filter raw)

-- The constructors in l3_proto_filter_provider.go, l4_proto_filter_provider.go,
-- ports_filter_provider.go and tcp_flags_filter_provider.go.
unfoldable pub new_l3_proto : PcapFilter → Provider
new_l3_proto filter = l3_proto filter

unfoldable pub new_l4_proto : PcapFilter → Provider
new_l4_proto filter = l4_proto filter

unfoldable pub new_ports : PcapFilter → Provider
new_ports filter = ports filter

unfoldable pub new_tcp_flags : PcapFilter → Provider
new_tcp_flags filter = tcp_flags filter

-- `newDNSFilterProvider` and `newDNSFilterProviderFromRawFilter`, before their result is taken for a
-- `pcap.PcapFilterProvider`.
unfoldable pub new_dns : PcapFilter → DnsFilterProvider
new_dns filter = record { filter = filter }

unfoldable pub new_dns_from_raw_filter : Text → DnsFilterProvider
new_dns_from_raw_filter raw = new_dns (record { raw = raw })

-- `newIPFilterProvider`, whose type assertion on the DNS provider holds.
unfoldable pub new_ip : Text → Text → Text → Provider
new_ip ipv4 ipv6 hosts =
    ip (record { raw = ipv4 }) (record { raw = ipv6 }) (new_dns_from_raw_filter hosts)

unfoldable pub new_l3_proto_filter_provider : Text → Provider
new_l3_proto_filter_provider raw = new_pcap_filter_provider raw new_l3_proto

unfoldable pub new_l4_proto_filter_provider : Text → Provider
new_l4_proto_filter_provider raw = new_pcap_filter_provider raw new_l4_proto

unfoldable pub new_ports_filter_provider : Text → Provider
new_ports_filter_provider raw = new_pcap_filter_provider raw new_ports

unfoldable pub new_tcp_flags_filter_provider : Text → Provider
new_tcp_flags_filter_provider raw = new_pcap_filter_provider raw new_tcp_flags

unfoldable pub new_dns_filter_provider : Text → Provider
new_dns_filter_provider raw = new_pcap_filter_provider raw (λ filter. dns (new_dns filter))

unfoldable pub new_ip_filter_provider : Text → Text → Text → Provider
new_ip_filter_provider ipv4 ipv6 hosts = new_ip ipv4 ipv6 hosts
