-- ===== src/Filter/Compat.antt =====
-- The calls that the providers make on `pcap.PcapFilters`, in order, and the tests on raw filters
-- that the providers share.
pub mod Laws
pub mod Frames
use cloud_run_tcpdump.Prelude.{ℕ, Bool, true, false, ◌||◌, List, [], ◌∷◌}
use cloud_run_tcpdump.Text.{Text, codes, text_eq, equal_fold}

pub data L3Proto : Type 0 where
  ipv4 ipv6 : L3Proto

pub data L4Proto : Type 0 where
  tcp udp icmp icmp6 : L4Proto

-- One constructor for each method of `pcap.PcapFilters` that the source calls.
pub data Call : Type 0 where
  add_l3_proto : L3Proto → Call
  add_l4_proto : L4Proto → Call
  add_port : ℕ → Call
  add_tcp_flags : Text → Call
  add_ipv4s : Text → Call
  add_ipv6s : Text → Call
  add_ipv4_ranges : Text → Call
  add_ipv6_ranges : Text → Call

-- `raw` is `ALL` or `ANY` in any case, and the same with the empty text.
unfoldable pub is_any : Text → Bool
is_any raw = equal_fold raw (codes "ALL") || equal_fold raw (codes "ANY")

unfoldable pub is_unset : Text → Bool
is_unset raw = text_eq raw [] || is_any raw

-- `len(parts) == 0 || (len(parts) == 1 && parts[0] == "")`
unfoldable pub only_blank : List Text → Bool
only_blank [] = true
only_blank (p ∷ []) = text_eq p []
only_blank (p ∷ q ∷ ps) = false
