-- ===== src/Filter/Ports.antt =====
-- tcpdumpw/pkg/filter/ports_filter_provider.go
pub mod Kept
use cloud_run_tcpdump.Prelude.{
  leb, if◌then◌else◌, ◌%◌, ◌||◌, Option, none, some, List, [], ◌∷◌, ◌++◌,
}
use cloud_run_tcpdump.Text.{
  Text, codes, text_eq, to_lower, comma, split, join, Parsed, value, failed, parse_uint, max_u16,
}
use cloud_run_tcpdump.Ext.{StringFormatter, Mapset}
use cloud_run_tcpdump.Filter.Compat.{Call, add_port, is_unset, only_blank}

-- The number that `strconv.ParseUint(portStr, 10, 16)` reads.
abbrev pub port_of : Text → Parsed
port_of = parse_uint max_u16

-- A round of `portSet.Each`: the conversion to `uint16` keeps the number's last 16 bits.
unfoldable pub visit : (S : Mapset) → Text → S.State × List Call → S.State × List Call
visit S port (set, calls) =
    if is_unset port
    then (S.remove port set, calls)
    else if failed (port_of port) || leb (value (port_of port)) 0xFFFF
    then (set, calls ++ (add_port (value (port_of port) % 65536) ∷ []))
    else (S.remove port set, calls)

unfoldable pub each : (S : Mapset) → List Text → S.State × List Call → S.State × List Call
each S [] st = st
each S (port ∷ ports) st = each S ports (visit S port st)

module _ (F : StringFormatter) (S : Mapset) where
  -- `PortsFilterProvider.Get`, with the calls made before it.
  unfoldable pub get : Text → List Call → Option Text × List Call
  get raw calls =
      if text_eq raw []
      then (none, calls)
      else let ports = split (to_lower raw) comma in
        if only_blank ports
        then (none, calls)
        else let (set, calls') = each S (S.each_order (S.new ports)) (S.new ports, calls) in
          if S.is_empty set then (none, calls') else (
            some (F.format (codes "port {0}") (join (S.to_slice set) (codes " or port ") ∷ [])),
            calls',
          )

-- `String`, where the filter is what `Get` returns.
unfoldable pub describe : StringFormatter → Text → Option Text → Text
describe F raw none = codes "PortsFilter[nil]"
describe F raw (some t) = F.format (codes "PortsFilter[{0}] => ({1})") (raw ∷ t ∷ [])
