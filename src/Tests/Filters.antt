-- ===== src/Tests/Filters.antt =====
-- The filter providers at concrete inputs.
use cloud_run_tcpdump.Filter.Protos.{collect, apply}
use cloud_run_tcpdump.Prelude.{
  if◌then◌else◌, any, true, false, ◌&&◌, ◌||◌, ◌≡◌, refl, none, some, List, [], ◌∷◌,
}
use cloud_run_tcpdump.Text.{
  Text, codes, text_eq, contains, to_lower, to_upper, equal_fold, split, join, parse_uint, lower,
  upper, push, comma,
}
use cloud_run_tcpdump.Text.{parse_loop, is_digit}
use cloud_run_tcpdump.Filter.Compat.{is_any, is_unset, only_blank}
use cloud_run_tcpdump.Ext.Models.{
  dedup, erase, substitute, formatter, formatter-IsPositional, mapset, mapset-IsMapset,
}
use cloud_run_tcpdump.Filter.L3Proto
use cloud_run_tcpdump.Filter.L3Proto.Keywords as L3Keywords
use cloud_run_tcpdump.Filter.L4Proto
use cloud_run_tcpdump.Filter.L4Proto.Keywords as L4Keywords
use cloud_run_tcpdump.Filter.Layers.{get-asked}
use cloud_run_tcpdump.Filter.Protos.Aliases.{listed_calls}
use cloud_run_tcpdump.Filter.Protos.Laws.{IsDisjunction}
use cloud_run_tcpdump.Filter.Listing.{IsFilter}
use cloud_run_tcpdump.Filter.Ports
use cloud_run_tcpdump.Filter.Ports.Kept as PortsKept
use cloud_run_tcpdump.Filter.Ports.Kept.{get_ports-wanted}
use cloud_run_tcpdump.Filter.TcpFlags
use cloud_run_tcpdump.Filter.TcpFlags.Written.{get-IsFlagFilter, IsFlagFilter}
use cloud_run_tcpdump.Filter.Dns
use cloud_run_tcpdump.Filter.Dns.Found as DnsFound
use cloud_run_tcpdump.Filter.Dns.Found.{get_dns-wanted}
use cloud_run_tcpdump.Filter.Ip
use cloud_run_tcpdump.Filter.Dns.Added.{handed, found_in}
use cloud_run_tcpdump.Filter.Ip.First.{first_net}
use cloud_run_tcpdump.Filter.Ip.Gathered.{parts, gives_ip}
use cloud_run_tcpdump.Filter.Ip.Added.{left_by, is_version, get_calls-first_net}
use cloud_run_tcpdump.Filter.Ip.Written.{get-IsIpFilter, IsIpFilter}
use cloud_run_tcpdump.Filter.Provider.{Provider}
use cloud_run_tcpdump.Filter.Provider.Factory.{
  new_pcap_filter, new_pcap_filter_provider, new_l4_proto, new_ports, new_l4_proto_filter_provider,
  new_ports_filter_provider,
}
use cloud_run_tcpdump.Filter.Provider.{apply_filter, join_filter, combine}
use cloud_run_tcpdump.Filter.Provider.Methods as Methods
use cloud_run_tcpdump.Filter.Provider.Applied.{apply_all}
use cloud_run_tcpdump.Tests.Data.{pcap, netip}

abbrev protos : Text
protos = codes "tcp,foo,17"

l4_run : (L4Proto.get formatter mapset protos []).0 ≡ some (codes "udp or tcp")
unfolding is_unset is_any only_blank contains text_eq equal_fold to_lower lower split push join
    dedup erase substitute cloud_run_tcpdump.Filter.Protos.get
    cloud_run_tcpdump.Filter.Protos.collect cloud_run_tcpdump.Filter.Protos.apply L4Proto.get
    L4Proto.is_default L4Proto.switch
l4_run = refl

get-asked_example :
    (IsDisjunction (L3Keywords.asked protos) (L3Proto.get formatter mapset protos []).0
      × ((L3Proto.get formatter mapset protos []).1 ≡ (
          if is_unset protos || equal_fold protos L3Proto.default_filter
          then []
          else listed_calls L3Keywords.table (split protos comma))))
    × (IsDisjunction (L4Keywords.asked protos) (L4Proto.get formatter mapset protos []).0
        × ((L4Proto.get formatter mapset protos []).1 ≡ (
            if L4Proto.is_default protos
            then []
            else listed_calls L4Keywords.table (split protos comma))))
get-asked_example = get-asked formatter formatter-IsPositional mapset mapset-IsMapset protos []

abbrev networks : Text
networks = codes "0x29,arp"

l3_run : (L3Proto.get formatter mapset networks []).0 ≡ some (codes "arp or ip6")
unfolding is_unset is_any only_blank contains text_eq equal_fold to_lower lower split push join
    dedup erase substitute cloud_run_tcpdump.Filter.Protos.get
    cloud_run_tcpdump.Filter.Protos.collect cloud_run_tcpdump.Filter.Protos.apply L3Proto.get
    L3Proto.switch
l3_run = refl

-- The second part is no number and the third is too large: both stay.
abbrev port_list : Text
port_list = codes "80,http,,70000"

ports_run :
    (Ports.get formatter mapset port_list []).0 ≡ some (codes "port 80 or port http or port 70000")
unfolding is_unset is_any only_blank contains text_eq equal_fold to_lower lower split push join
    dedup erase substitute Ports.get Ports.each Ports.visit parse_uint parse_loop is_digit
ports_run = refl

get_ports-wanted_example :
    IsFilter
      (codes "port ")
      (PortsKept.wanted port_list)
      (Ports.get formatter mapset port_list []).0
get_ports-wanted_example =
    get_ports-wanted formatter formatter-IsPositional mapset mapset-IsMapset port_list []

flags_run :
    (TcpFlags.get formatter mapset pcap (codes "syn,ACK,foo") []).0
    ≡ some (codes "(tcp[tcpflags]&(tcp-syn|tcp-ack|tcp-foo)!=0) or (ip6[13+40]&0x12!=0)")
unfolding is_unset is_any only_blank contains text_eq equal_fold to_lower lower split push join
    dedup erase substitute upper to_upper TcpFlags.get TcpFlags.each TcpFlags.visit TcpFlags.write
    TcpFlags.hex_digit TcpFlags.format_hex
flags_run = refl

get-IsFlagFilter_example :
    IsFlagFilter pcap
      (codes "syn,ACK,foo")
      (TcpFlags.get formatter mapset pcap (codes "syn,ACK,foo") []).0
get-IsFlagFilter_example =
    get-IsFlagFilter formatter formatter-IsPositional mapset mapset-IsMapset pcap
      (codes "syn,ACK,foo") []

dns_run :
    (Dns.get formatter mapset netip (codes "db,nowhere") []).0
    ≡ some (codes "host fd::7 or host 10.0.0.7")
unfolding is_unset is_any only_blank contains text_eq equal_fold to_lower lower split push join
    dedup erase substitute Dns.get Dns.filter_of Dns.hosts_to_ips Dns.add_hosts Dns.add_host
    Dns.add_resolved Dns.add_ips Dns.add_parsed Dns.host_to_ips
dns_run = refl

get_dns-wanted_example :
    IsFilter
      (codes "host ")
      (DnsFound.wanted netip (codes "db,nowhere"))
      (Dns.get formatter mapset netip (codes "db,nowhere") []).0
get_dns-wanted_example =
    get_dns-wanted formatter formatter-IsPositional mapset mapset-IsMapset netip
      (codes "db,nowhere") []

abbrev ips : Text
ips = codes "10.0.0.1,192.168.0.1,10.0.0.0/8"

ip_run :
    (Ip.get formatter mapset netip ips (codes "DISABLED") (codes "db") []).0
    ≡ some (codes "(host fd::7 or host 192.168.0.1) or (net 10.0.0.0/8)")
unfolding is_unset is_any only_blank contains text_eq equal_fold to_lower lower split push join
    dedup erase substitute Ip.gather_net Ip.gather_parsed Ip.gather_one Ip.gather
    Ip.get_ips_and_nets Ip.covers Ip.ip_is4 Ip.ip_is6 Ip.visit Ip.each Ip.drop_covered Ip.add_found
    Ip.terms Ip.compose Ip.write Ip.sets Ip.get Dns.hosts_to_ips Dns.add_hosts Dns.add_host
    Dns.add_resolved Dns.add_ips Dns.add_parsed Dns.host_to_ips
ip_run = refl

get-IsIpFilter_example :
    IsIpFilter formatter netip ips
      (codes "DISABLED")
      (codes "db")
      []
      (Ip.get formatter mapset netip ips (codes "DISABLED") (codes "db") []).0
get-IsIpFilter_example =
    get-IsIpFilter formatter formatter-IsPositional mapset mapset-IsMapset netip ips
      (codes "DISABLED") (codes "db") []

abbrev providers : List Provider
providers =
    new_l4_proto_filter_provider protos
    ∷ new_ports_filter_provider (codes "all")
    ∷ new_ports_filter_provider (codes "80")
    ∷ []

providers_run :
    (apply_all formatter mapset pcap netip providers none []).0
    ≡ some (codes "(udp or tcp) and (port 80)")
unfolding is_unset is_any only_blank contains text_eq equal_fold to_lower lower split push join
    dedup erase substitute apply_all Methods.apply Methods.apply_l4_proto Methods.apply_ports
    apply_filter join_filter combine cloud_run_tcpdump.Filter.Provider.get
    cloud_run_tcpdump.Filter.Protos.get cloud_run_tcpdump.Filter.Protos.collect
    cloud_run_tcpdump.Filter.Protos.apply L4Proto.get L4Proto.is_default L4Proto.switch Ports.get
    Ports.each Ports.visit parse_uint parse_loop is_digit new_pcap_filter new_pcap_filter_provider
    new_l4_proto new_ports new_l4_proto_filter_provider new_ports_filter_provider
providers_run = refl

-- The second network contains the address, which is handed over all the same.
abbrev two_nets : Text
two_nets = codes "192.168.0.1,10.0.0.0/8,192.168.0.0/16"

handed_run :
    handed true (codes "192.168.0.1") (Ip.get formatter mapset netip two_nets [] [] []).1 ≡ true
unfolding is_unset is_any only_blank contains text_eq equal_fold to_lower lower split push join
    dedup erase substitute Ip.gather_net Ip.gather_parsed Ip.gather_one Ip.gather
    Ip.get_ips_and_nets Ip.covers Ip.ip_is4 Ip.ip_is6 Ip.visit Ip.each Ip.drop_covered Ip.add_found
    Ip.sets Ip.get Dns.hosts_to_ips
handed_run = refl

get_calls-first_net_example :
    handed true (codes "192.168.0.1") (Ip.get formatter mapset netip two_nets [] (codes "db") []).1
    ≡ (false
        || found_in netip true (codes "192.168.0.1") (codes "db")
        || left_by netip true (codes "192.168.0.1") (first_net netip (parts two_nets []))
          && (any (gives_ip netip (codes "192.168.0.1")) (parts two_nets [])
              || DnsFound.wanted netip (codes "db") (codes "192.168.0.1"))
          && is_version netip true (codes "192.168.0.1"))
get_calls-first_net_example =
    get_calls-first_net formatter formatter-IsPositional mapset mapset-IsMapset netip two_nets []
      (codes "db") [] true (codes "192.168.0.1")
