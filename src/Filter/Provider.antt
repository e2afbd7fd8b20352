-- ===== src/Filter/Provider.antt =====
-- tcpdumpw/pkg/filter/filter_provider.go: the providers behind one interface, and `applyFilter`.
pub mod Factory
pub mod Methods
pub mod Applied
pub mod Framed
use cloud_run_tcpdump.Prelude.{if◌then◌else◌, Option, none, some, List, [], ◌∷◌}
use cloud_run_tcpdump.Text.{Text, codes, text_eq}
use cloud_run_tcpdump.Ext.{StringFormatter, Mapset, Pcap, Netip}
use cloud_run_tcpdump.Filter.Compat.{Call}
use cloud_run_tcpdump.Filter.L3Proto
use cloud_run_tcpdump.Filter.L4Proto
use cloud_run_tcpdump.Filter.Ports
use cloud_run_tcpdump.Filter.TcpFlags
use cloud_run_tcpdump.Filter.Dns
use cloud_run_tcpdump.Filter.Ip

-- `pcap.PcapFilter`, of which the source uses this field.
pub record PcapFilter : Type 0 where
  pub raw : Text

-- `DNSFilterProvider`, but for its resolver and the compatibility filters.
pub record DnsFilterProvider : Type 0 where
  pub filter : PcapFilter

-- The types that implement `pcap.PcapFilterProvider`, but for the compatibility filters, which all
-- share. The IP provider has a DNS provider of its own.
pub data Provider : Type 0 where
  l3_proto : PcapFilter → Provider
  l4_proto : PcapFilter → Provider
  ports : PcapFilter → Provider
  tcp_flags : PcapFilter → Provider
  dns : DnsFilterProvider → Provider
  ip : PcapFilter → PcapFilter → DnsFilterProvider → Provider

-- `pcap.PcapFilterMode`; the source names two of its values.
pub data Mode : Type 0 where
  and or other : Mode

module _ (F : StringFormatter) (S : Mapset) (C : Pcap) (N : Netip) where
  unfoldable pub get : Provider → List Call → Option Text × List Call
  get (l3_proto f) calls = L3Proto.get F S f.raw calls
  get (l4_proto f) calls = L4Proto.get F S f.raw calls
  get (ports f) calls = Ports.get F S f.raw calls
  get (tcp_flags f) calls = TcpFlags.get F S C f.raw calls
  get (dns p) calls = Dns.get F S N p.filter.raw calls
  get (ip ipv4 ipv6 p) calls = Ip.get F S N ipv4.raw ipv6.raw p.filter.raw calls

  -- The switch over the mode at the end of `applyFilter`.
  unfoldable pub combine : Mode → Text → Text → Text
  combine and src filter = F.format (codes "{0} and ({1})") (src ∷ filter ∷ [])
  combine or src filter = F.format (codes "{0} or ({1})") (src ∷ filter ∷ [])
  combine other src filter = filter

  -- `applyFilter` behind the call of `Get`; `none` is a nil pointer.
  unfoldable pub join_filter : Option Text → Option Text → Mode → Option Text
  join_filter src none mode = src
  join_filter none (some filter) mode =
      if text_eq filter [] then none else some (F.format (codes "({0})") (filter ∷ []))
  join_filter (some src) (some filter) mode =
      if text_eq filter []
      then some src
      else if text_eq src []
      then some (F.format (codes "({0})") (filter ∷ []))
      else some (combine mode src filter)

  unfoldable pub apply_filter :
      Option Text → Option Provider → Mode → List Call → Option Text × List Call
  apply_filter src none mode calls = (src, calls)
  apply_filter src (some provider) mode calls =
      let (filter, calls') = get provider calls in (join_filter src filter mode, calls')

  -- The text of a provider whose filter is known, behind the raw filters that it was made from.
  unfoldable pub describe : Provider → Option Text → Text
  describe (l3_proto f) filter = L3Proto.describe F f.raw filter
  describe (l4_proto f) filter = L4Proto.describe F f.raw filter
  describe (ports f) filter = Ports.describe F f.raw filter
  describe (tcp_flags f) filter = TcpFlags.describe F f.raw filter
  describe (dns p) filter = Dns.describe F p.filter.raw filter
  describe (ip ipv4 ipv6 p) filter = Ip.describe F ipv4.raw ipv6.raw p.filter.raw filter

  -- The methods `String`: they call `Get`, so they make its calls too.
  unfoldable pub string : Provider → List Call → Text × List Call
  string provider calls =
      let (filter, calls') = get provider calls in (describe provider filter, calls')
