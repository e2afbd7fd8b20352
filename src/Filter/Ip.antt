-- ===== src/Filter/Ip.antt =====
-- tcpdumpw/pkg/filter/ip_filter_provider.go
use cloud_run_tcpdump.Prelude.{
  [], if◌then◌else◌, Bool, false, not, ◌&&◌, ◌||◌, Option, none, some, List, ◌∷◌, ◌++◌,
}
use cloud_run_tcpdump.Text.{Text, codes, text_eq, equal_fold, comma, split, join}
use cloud_run_tcpdump.Ext.{StringFormatter, Mapset, Netip}
use cloud_run_tcpdump.Filter.Compat.{
  Call, add_ipv4s, add_ipv6s, add_ipv4_ranges, add_ipv6_ranges, is_any,
}
pub mod Written
pub mod Covered
pub mod Uncalled
pub mod First
pub mod Added
pub mod Gathered
use cloud_run_tcpdump.Filter.Dns

abbrev pub default_ipv4_net : Text
default_ipv4_net = codes "0.0.0.0/0"

abbrev pub default_ipv6_net : Text
default_ipv6_net = codes "::/0"

abbrev pub default_ip_filter : Text
default_ip_filter = codes "net 0.0.0.0/0 or net ::/0"

-- The slices `IPs` and `NETs`, and the calls made.
abbrev pub Gathered : Type 0
Gathered = record { ips : List Text; nets : List Text; calls : List Call }

module _ (F : StringFormatter) (N : Netip) where
  -- The last branch of a round: a text that is no address.
  unfoldable pub gather_net : Text → Option N.Prefix → Gathered → Gathered
  gather_net text none g = g
  gather_net text (some net) g = if not (N.is_valid net) then g else record {
    ips = g.ips;
    nets = g.nets ++ (N.prefix_string net ∷ []);
    calls =
        g.calls
        ++ ((if N.is4 (N.prefix_addr net) then add_ipv4_ranges text else add_ipv6_ranges text)
            ∷ []);
  }

  -- The branches behind `netip.ParseAddr`.
  unfoldable pub gather_parsed : Text → Option N.Addr → Gathered → Gathered
  gather_parsed text none g = gather_net text (N.parse_prefix text) g
  gather_parsed text (some addr) g =
      if N.is4 addr || N.is6 addr
      then record { ips = g.ips ++ (N.addr_string addr ∷ []); nets = g.nets; calls = g.calls }
      else g

  -- A round of the loop of `getIPsAndNETs`.
  unfoldable pub gather_one : Text → Gathered → Gathered
  gather_one text g =
      if text_eq text [] || equal_fold text (codes "DISABLED")
      then g
      else if is_any text
      then record {
        ips = g.ips;
        nets = g.nets ++ (default_ipv4_net ∷ default_ipv6_net ∷ []);
        calls = g.calls;
      }
      else gather_parsed text (N.parse_addr text) g

  unfoldable pub gather : List Text → Gathered → Gathered
  gather [] g = g
  gather (text ∷ texts) g = gather texts (gather_one text g)

  -- `getIPsAndNETs`
  unfoldable pub get_ips_and_nets : Text → Text → List Call → Gathered
  get_ips_and_nets ipv4 ipv6 calls =
      let start : Gathered = record { ips = []; nets = []; calls = calls } in
      if text_eq ipv4 [] && text_eq ipv6 []
      then start
      else gather (split (F.format (codes "{0},{1}") (ipv4 ∷ ipv6 ∷ [])) comma) start

module _ (N : Netip) where
  -- `NET.Contains(IP)`, and the two tests on `IP`. A text that does not parse gives the zero value,
  -- which contains nothing, is contained in nothing, and is of neither version.
  unfoldable pub covers : Text → Text → Bool
  covers net ip = elim (N.parse_prefix net) [
    | none ↦ false
    | some prefix ↦ elim (N.parse_addr ip) [ none ↦ false | some addr ↦ N.has_addr prefix addr ]
  ]

  unfoldable pub ip_is4 : Text → Bool
  ip_is4 ip = elim (N.parse_addr ip) [ none ↦ false | some addr ↦ N.is4 addr ]

  unfoldable pub ip_is6 : Text → Bool
  ip_is6 ip = elim (N.parse_addr ip) [ none ↦ false | some addr ↦ N.is6 addr ]

module _ (S : Mapset) (N : Netip) where
  -- A round of `ipSet.Each` for one network.
  unfoldable pub visit : Text → Text → S.State × List Call → S.State × List Call
  visit net ip (set, calls) =
      if covers N net ip
      then (S.remove ip set, calls)
      else if ip_is4 N ip
      then (set, calls ++ (add_ipv4s ip ∷ []))
      else if ip_is6 N ip
      then (set, calls ++ (add_ipv6s ip ∷ []))
      else (set, calls)

  unfoldable pub each : Text → List Text → S.State × List Call → S.State × List Call
  each net [] st = st
  each net (ip ∷ ips) st = each net ips (visit net ip st)

  -- The loop over the networks.
  unfoldable pub drop_covered : List Text → S.State × List Call → S.State × List Call
  drop_covered [] st = st
  drop_covered (net ∷ nets) st = drop_covered nets (each net (S.each_order st.0) st)

  -- The set of addresses, those of the hosts included, before the loop over the networks.
  unfoldable pub add_found : Option S.State → S.State → S.State
  add_found none set = set
  add_found (some found) set = if S.is_empty found then set else S.append (S.to_slice found) set

module _ (F : StringFormatter) (S : Mapset) where
  -- One kind of term: empty if the set is.
  unfoldable pub terms : Text → Text → S.State → Text
  terms pattern sep set =
      if S.is_empty set then [] else F.format pattern (join (S.to_slice set) sep ∷ [])

  -- The four branches over the two texts.
  unfoldable pub compose : Text → Text → Text
  compose ip_filter net_filter =
      if not (text_eq ip_filter []) && not (text_eq net_filter [])
      then F.format (codes "({0}) or ({1})") (ip_filter ∷ net_filter ∷ [])
      else if not (text_eq ip_filter [])
      then ip_filter
      else if not (text_eq net_filter [])
      then net_filter
      else default_ip_filter

  -- The text that is built from the addresses and the networks left.
  unfoldable pub write : S.State → S.State → Text
  write ip_set net_set =
      compose (terms (codes "host {0}") (codes " or host ") ip_set)
        (terms (codes "net {0}") (codes " or net ") net_set)

module _ (F : StringFormatter) (S : Mapset) (N : Netip) where
  -- The sets of addresses and of networks that `Get` builds, and the calls made.
  unfoldable pub sets : Text → Text → Text → List Call → S.State × S.State × List Call
  sets ipv4 ipv6 hosts calls =
      let g = get_ips_and_nets F N ipv4 ipv6 calls in
      let (found, calls') = Dns.hosts_to_ips S N hosts g.calls in
      let (ip_set, calls'') = drop_covered S N g.nets (add_found S N found (S.new g.ips), calls') in
      (ip_set, S.new g.nets, calls'')

  -- `IPFilterProvider.Get`, with the calls made before it.
  unfoldable pub get : Text → Text → Text → List Call → Option Text × List Call
  get ipv4 ipv6 hosts calls =
      if text_eq ipv4 [] && text_eq ipv6 [] && text_eq hosts []
      then (none, calls)
      else let (ip_set, net_set, calls') = sets ipv4 ipv6 hosts calls in
        (some (write F S ip_set net_set), calls')

-- `String`, where the filter is what `Get` returns.
unfoldable pub describe : StringFormatter → Text → Text → Text → Option Text → Text
describe F ipv4 ipv6 hosts none = codes "IPFilter[nil]"
describe F ipv4 ipv6 hosts (some t) =
    F.format (codes "IPFilter[{0}|{1}|{2}] => ({3})") (ipv4 ∷ ipv6 ∷ hosts ∷ t ∷ [])
