-- ===== src/Filter/Provider/Methods.antt =====
-- The methods `Apply` of the providers, one in the file of each.
use cloud_run_tcpdump.Prelude.{◌≡◌, refl, Option, some, List}
use cloud_run_tcpdump.Text.{Text}
use cloud_run_tcpdump.Ext.{StringFormatter, Mapset, Pcap, Netip}
use cloud_run_tcpdump.Filter.Compat.{Call}
use cloud_run_tcpdump.Filter.Provider.{
  PcapFilter, DnsFilterProvider, Provider, l3_proto, l4_proto, ports, tcp_flags, dns, ip, Mode,
  apply_filter,
}

module _ (F : StringFormatter) (S : Mapset) (C : Pcap) (N : Netip) where
  unfoldable pub apply_l3_proto :
      PcapFilter → Option Text → Mode → List Call → Option Text × List Call
  apply_l3_proto f src mode calls = apply_filter F S C N src (some (l3_proto f)) mode calls

  unfoldable pub apply_l4_proto :
      PcapFilter → Option Text → Mode → List Call → Option Text × List Call
  apply_l4_proto f src mode calls = apply_filter F S C N src (some (l4_proto f)) mode calls

  unfoldable pub apply_ports : PcapFilter → Option Text → Mode → List Call → Option Text × List Call
  apply_ports f src mode calls = apply_filter F S C N src (some (ports f)) mode calls

  unfoldable pub apply_tcp_flags :
      PcapFilter → Option Text → Mode → List Call → Option Text × List Call
  apply_tcp_flags f src mode calls = apply_filter F S C N src (some (tcp_flags f)) mode calls

  unfoldable pub apply_dns :
      DnsFilterProvider → Option Text → Mode → List Call → Option Text × List Call
  apply_dns p src mode calls = apply_filter F S C N src (some (dns p)) mode calls

  unfoldable pub apply_ip :
      PcapFilter
      → PcapFilter
      → DnsFilterProvider
      → Option Text
      → Mode
      → List Call
      → Option Text × List Call
  apply_ip ipv4 ipv6 p src mode calls = apply_filter F S C N src (some (ip ipv4 ipv6 p)) mode calls

  -- The call of `Apply` on the interface.
  unfoldable pub apply : Provider → Option Text → Mode → List Call → Option Text × List Call
  apply (l3_proto f) src mode calls = apply_l3_proto f src mode calls
  apply (l4_proto f) src mode calls = apply_l4_proto f src mode calls
  apply (ports f) src mode calls = apply_ports f src mode calls
  apply (tcp_flags f) src mode calls = apply_tcp_flags f src mode calls
  apply (dns p) src mode calls = apply_dns p src mode calls
  apply (ip ipv4 ipv6 p) src mode calls = apply_ip ipv4 ipv6 p src mode calls

  pub apply-apply_filter :
      (p : Provider) (src : Option Text) (mode : Mode) (calls : List Call)
      → apply p src mode calls ≡ apply_filter F S C N src (some p) mode calls
  unfolding apply apply_l3_proto apply_l4_proto apply_ports apply_tcp_flags apply_dns apply_ip
  apply-apply_filter (l3_proto f) src mode calls = refl
  apply-apply_filter (l4_proto f) src mode calls = refl
  apply-apply_filter (ports f) src mode calls = refl
  apply-apply_filter (tcp_flags f) src mode calls = refl
  apply-apply_filter (dns p) src mode calls = refl
  apply-apply_filter (ip ipv4 ipv6 p) src mode calls = refl
