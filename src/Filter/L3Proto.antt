-- ===== src/Filter/L3Proto.antt =====
-- tcpdumpw/pkg/filter/l3_proto_filter_provider.go
pub mod Keywords
use cloud_run_tcpdump.Prelude.{List, [], ◌∷◌, Option, none, some, ◌||◌, if◌then◌else◌}
use cloud_run_tcpdump.Text.{Text, codes, contains, equal_fold}
use cloud_run_tcpdump.Ext.{StringFormatter, Mapset}
use cloud_run_tcpdump.Filter.Compat.{Call, add_l3_proto, ipv4, ipv6, is_unset}
use cloud_run_tcpdump.Filter.Protos
use cloud_run_tcpdump.Filter.Protos.{Case}

abbrev pub default_filter : Text
default_filter = codes "ip or ip6 or arp"

-- The `switch` of `Get`.
unfoldable pub switch : Text → Option Case
switch proto =
    if contains (codes "ip" ∷ codes "ip4" ∷ codes "ipv4" ∷ codes "4" ∷ codes "0x04" ∷ []) proto
    then some (record { keyword = codes "ip"; calls = add_l3_proto ipv4 ∷ [] })
    else if contains (codes "ip6" ∷ codes "ipv6" ∷ codes "41" ∷ codes "0x29" ∷ []) proto
    then some (record { keyword = codes "ip6"; calls = add_l3_proto ipv6 ∷ [] })
    else if contains (codes "arp" ∷ codes "0x0806" ∷ []) proto
    then some (record { keyword = codes "arp"; calls = [] })
    else none

module _ (F : StringFormatter) (S : Mapset) where
  -- `L3ProtoFilterProvider.Get`, with the calls made before it.
  unfoldable pub get : Text → List Call → Option Text × List Call
  get raw calls =
      Protos.get F S switch default_filter (is_unset raw || equal_fold raw default_filter) raw calls

-- `String`, where the filter is what `Get` returns.
unfoldable pub describe : StringFormatter → Text → Option Text → Text
describe F raw none = codes "L3Proto[nil]"
describe F raw (some t) = F.format (codes "L3Proto[{0}] => ({1})") (raw ∷ t ∷ [])
