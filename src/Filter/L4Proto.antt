-- ===== src/Filter/L4Proto.antt =====
-- tcpdumpw/pkg/filter/l4_proto_filter_provider.go
pub mod Keywords
use cloud_run_tcpdump.Prelude.{List, [], ◌∷◌, Option, none, some, ◌||◌, if◌then◌else◌, Bool}
use cloud_run_tcpdump.Text.{Text, codes, contains, equal_fold}
use cloud_run_tcpdump.Ext.{StringFormatter, Mapset}
use cloud_run_tcpdump.Filter.Compat.{Call, add_l4_proto, tcp, udp, icmp, icmp6, is_any}
use cloud_run_tcpdump.Filter.Protos
use cloud_run_tcpdump.Filter.Protos.{Case}

abbrev pub default_filter : Text
default_filter = codes "tcp or udp or icmp or icmp6"

-- The `switch` of `Get`.
unfoldable pub switch : Text → Option Case
switch proto =
    if contains (codes "tcp" ∷ codes "6" ∷ codes "0x06" ∷ []) proto
    then some (record { keyword = codes "tcp"; calls = add_l4_proto tcp ∷ [] })
    else if contains (codes "udp" ∷ codes "17" ∷ codes "0x11" ∷ []) proto
    then some (record { keyword = codes "udp"; calls = add_l4_proto udp ∷ [] })
    else if contains (codes "icmp" ∷ codes "icmp4" ∷ codes "1" ∷ codes "0x01" ∷ []) proto
    then some (record { keyword = codes "icmp"; calls = add_l4_proto icmp ∷ [] })
    else if contains (codes "icmp6" ∷ codes "58" ∷ codes "0x3A" ∷ []) proto
    then some (record { keyword = codes "icmp6"; calls = add_l4_proto icmp6 ∷ [] })
    else none

-- The first test of `Get`: no filter, both TCP and UDP by the sum of their numbers, or all.
unfoldable pub is_default : Text → Bool
is_default raw =
    contains ([] ∷ codes "23" ∷ codes "0x17" ∷ []) raw
    || is_any raw
    || equal_fold raw default_filter

module _ (F : StringFormatter) (S : Mapset) where
  -- `L4ProtoFilterProvider.Get`, with the calls made before it.
  unfoldable pub get : Text → List Call → Option Text × List Call
  get raw calls = Protos.get F S switch default_filter (is_default raw) raw calls

-- `String`, where the filter is what `Get` returns.
unfoldable pub describe : StringFormatter → Text → Option Text → Text
describe F raw none = codes "L4Proto[nil]"
describe F raw (some t) = F.format (codes "L4Proto[{0}] => ({1})") (raw ∷ t ∷ [])
