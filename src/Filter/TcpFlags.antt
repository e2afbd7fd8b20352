-- ===== src/Filter/TcpFlags.antt =====
-- tcpdumpw/pkg/filter/tcp_flags_filter_provider.go
pub mod Bits
pub mod Kept
pub mod Written
pub mod Masks
pub mod Meaning
use Prim.Native.Nat.{bit_or, ◌/◌}
use cloud_run_tcpdump.Prelude.{
  ltb, ◌==◌, if◌then◌else◌, ℕ, ◌+◌, ◌-◌, ◌%◌, ◌||◌, Option, none, some, List, [], ◌∷◌, ◌++◌,
}
use cloud_run_tcpdump.Text.{Text, codes, to_lower, to_upper, comma, split, join}
use cloud_run_tcpdump.Ext.{StringFormatter, Mapset, Pcap}
use cloud_run_tcpdump.Filter.Compat.{Call, add_tcp_flags, is_unset, only_blank}

-- `strconv.FormatUint(n, 16)` of a `uint8`.
unfoldable pub hex_digit : ℕ → ℕ
hex_digit d = if ltb d 10 then b'0' + d else b'a' + (d - 10)

unfoldable pub format_hex : ℕ → Text
format_hex n = if ltb n 16 then hex_digit n ∷ [] else hex_digit (n / 16) ∷ hex_digit (n % 16) ∷ []

-- The set, `setFlags` and the calls made.
abbrev pub Seen : Mapset → Type 0
Seen S = record { set : S.State; bits : ℕ; calls : List Call }

module _ (S : Mapset) (C : Pcap) where
  -- A round of `flagsSet.Each`.
  unfoldable pub visit : Text → Seen S → Seen S
  visit flag st =
      let name = to_upper flag in
      let bits = C.tcp_flag_to_uint8 name in
      if bits == 0
      then record { set = S.remove name st.set; bits = st.bits; calls = st.calls }
      else record {
        set = st.set;
        bits = bit_or st.bits bits;
        calls = st.calls ++ (add_tcp_flags name ∷ []);
      }

  unfoldable pub each : List Text → Seen S → Seen S
  each [] st = st
  each (flag ∷ flags) st = each flags (visit flag st)

-- The filter for some flags and the bits that they stand for.
unfoldable pub write : StringFormatter → List Text → ℕ → Text
write F flags bits =
    let ip6_filter = F.format (codes "ip6[13+40]&0x{0}!=0") (format_hex bits ∷ []) in
    let ip4_filter = F.format (codes "tcp-{0}") (join flags (codes "|tcp-") ∷ []) in
    F.format (codes "(tcp[tcpflags]&({0})!=0) or ({1})") (ip4_filter ∷ ip6_filter ∷ [])

module _ (F : StringFormatter) (S : Mapset) (C : Pcap) where
  -- `TCPFlagsFilterProvider.Get`, with the calls made before it.
  unfoldable pub get : Text → List Call → Option Text × List Call
  get raw calls =
      if is_unset raw
      then (none, calls)
      else let flags = split (to_lower raw) comma in
        if only_blank flags
        then (none, calls)
        else let st =
            each S C (S.each_order (S.new flags))
              (record { set = S.new flags; bits = 0; calls = calls }) in
          if st.bits == 0 || S.is_empty st.set
          then (none, st.calls)
          else (some (write F (S.to_slice st.set) st.bits), st.calls)

-- `String`, where the filter is what `Get` returns.
unfoldable pub describe : StringFormatter → Text → Option Text → Text
describe F raw none = codes "TCPFlagsFilter[nil]"
describe F raw (some t) = F.format (codes "TCPFlagsFilter[{0}] => ({1})") (raw ∷ t ∷ [])
