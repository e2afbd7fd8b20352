-- ===== src/Tests/Setup.antt =====
-- The start of the capture at concrete options.
use cloud_run_tcpdump.Filter.Compat.{is_unset, is_any}
use cloud_run_tcpdump.Prelude.{◌||◌, any, ◌≡◌, Bool, false, none, some, [], ◌∷◌, map}
use cloud_run_tcpdump.Text.{
  codes, text_eq, to_lower, equal_fold, parse_uint, lower, parse_loop, is_digit,
}
use cloud_run_tcpdump.Ext.{Netip}
use cloud_run_tcpdump.Ext.Models.{formatter, formatter-IsPositional, mapset}
use cloud_run_tcpdump.Filter.Provider.Factory.{
  new_l4_proto_filter_provider, new_ports_filter_provider,
}
use cloud_run_tcpdump.Tcpdumpw.Setup.{Options, choose, trim_space, trim_right, trim_left, is_space}
use cloud_run_tcpdump.Tcpdumpw.Setup.Choice.{choose-asked}
use cloud_run_tcpdump.Tcpdumpw.Setup.Calls.{choose-apply_all}
use cloud_run_tcpdump.Filter.Compat.{Call}
use cloud_run_tcpdump.Filter.Provider.Applied.{apply_all, joined, effective}
use cloud_run_tcpdump.Filter.Provider.Framed.{filter_of, added}
use cloud_run_tcpdump.Tcpdumpw.Ephemeral.{parse_ephemeral_ports, cut}
use cloud_run_tcpdump.Tcpdumpw.Ephemeral.Range.{parse_ephemeral_ports-range}
use cloud_run_tcpdump.Tests.Data.{pcap, pcap-IsPcap, netip}

abbrev options : Options
options = record {
  compat = false;
  filter = codes " ";
  l3_protos = codes "ALL";
  l4_protos = codes "tcp";
  ports_list = codes "80,443";
  flags = [];
  ipv4 = [];
  ipv6 = [];
  hosts = [];
}

choose-asked_example :
    ((choose formatter mapset pcap netip options).1.filters
      ≡ new_l4_proto_filter_provider (codes "tcp")
        ∷ new_ports_filter_provider (codes "80,443")
        ∷ [])
    × ((choose formatter mapset pcap netip options).0 ≡ [])
unfolding equal_fold text_eq to_lower lower trim_space trim_right trim_left is_space is_unset is_any
choose-asked_example = choose-asked formatter mapset pcap netip options

-- The host has other addresses when the providers are applied.
abbrev moved : Netip
moved = record netip { lookup_host = λ host. some (codes "10.0.0.9" ∷ []) }

abbrev hosted : Options
hosted = record options { hosts = codes "example.com" }

choose-apply_all_example :
    let st = (choose formatter mapset pcap netip hosted).1 in
    let applied = apply_all formatter mapset pcap moved st.filters none st.calls in
    (applied.0 ≡ joined (effective (map (filter_of formatter mapset pcap moved) st.filters)))
    × ((q : Call → Bool)
        → any q applied.1
          ≡ (any q st.calls || any (λ p. any q (added formatter mapset pcap moved p)) st.filters))
choose-apply_all_example =
    choose-apply_all formatter formatter-IsPositional pcap mapset mapset netip moved hosted

-- A valid range is not taken over.
parse_ephemeral_ports-range_example :
    parse_ephemeral_ports pcap (codes "40000,50000") ≡ record { min = 32768; max = 61000 }
unfolding cut parse_uint parse_loop is_digit
parse_ephemeral_ports-range_example =
    parse_ephemeral_ports-range pcap (codes "40000,50000") pcap-IsPcap
