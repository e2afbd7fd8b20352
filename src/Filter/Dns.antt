-- ===== src/Filter/Dns.antt =====
-- tcpdumpw/pkg/filter/dns_filter_provider.go
use cloud_run_tcpdump.Prelude.{[], if◌then◌else◌, Option, none, some, List, ◌∷◌, ◌++◌}
use cloud_run_tcpdump.Text.{Text, codes, text_eq, comma, split, join}
use cloud_run_tcpdump.Ext.{StringFormatter, Mapset, Netip}
use cloud_run_tcpdump.Filter.Compat.{Call, add_ipv4s, add_ipv6s, is_unset, only_blank}
pub mod Found
pub mod Added

module _ (S : Mapset) (N : Netip) where
  -- `hostToIPs`
  unfoldable pub host_to_ips : Text → Option (List Text)
  host_to_ips host = if text_eq host [] then none else N.lookup_host host

  -- A round of the loop over the addresses of one host, behind `netip.ParseAddr`.
  unfoldable pub add_parsed : Text → Option N.Addr → S.State → List Call → S.State × List Call
  add_parsed ip none set calls = (set, calls)
  add_parsed ip (some addr) set calls = (
    S.add (N.addr_string addr) set,
    calls ++ ((if N.is4 addr then add_ipv4s ip else add_ipv6s ip) ∷ []),
  )

  unfoldable pub add_ips : List Text → S.State × List Call → S.State × List Call
  add_ips [] st = st
  add_ips (ip ∷ ips) (set, calls) = add_ips ips (add_parsed ip (N.parse_addr ip) set calls)

  unfoldable pub add_resolved : Option (List Text) → S.State × List Call → S.State × List Call
  add_resolved none st = st
  add_resolved (some ips) st = add_ips ips st

  -- A round of the loop over the hosts.
  unfoldable pub add_host : Text → S.State × List Call → S.State × List Call
  add_host host st = if is_unset host then st else add_resolved (host_to_ips host) st

  unfoldable pub add_hosts : List Text → S.State × List Call → S.State × List Call
  add_hosts [] st = st
  add_hosts (host ∷ hosts) st = add_hosts hosts (add_host host st)

  -- `hostsToIPs`: `none` where it returns `nil, false`.
  unfoldable pub hosts_to_ips : Text → List Call → Option S.State × List Call
  hosts_to_ips raw calls =
      if is_unset raw
      then (none, calls)
      else if only_blank (split raw comma)
      then (none, calls)
      else let (set, calls') = add_hosts (split raw comma) (S.new [], calls) in (some set, calls')

module _ (F : StringFormatter) (S : Mapset) (N : Netip) where
  -- The filter for the addresses that were found.
  unfoldable pub filter_of : Option S.State → Option Text
  filter_of none = none
  filter_of (some set) =
      if S.is_empty set
      then none
      else some (F.format (codes "host {0}") (join (S.to_slice set) (codes " or host ") ∷ []))

  -- `DNSFilterProvider.Get`, with the calls made before it.
  unfoldable pub get : Text → List Call → Option Text × List Call
  get raw calls = let (found, calls') = hosts_to_ips S N raw calls in (filter_of found, calls')

-- `String`, where the filter is what `Get` returns.
unfoldable pub describe : StringFormatter → Text → Option Text → Text
describe F raw none = codes "DNSFilter[nil]"
describe F raw (some t) = F.format (codes "DNSFilter[{0}] => ({1})") (raw ∷ t ∷ [])
