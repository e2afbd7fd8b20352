-- ===== src/Filter/Provider/Framed.antt =====
-- No provider looks at the calls made before its own.
mod Lists
mod Hosts
use cloud_run_tcpdump.Prelude.{
  any, any-append, ◌≡◌, refl, Bool, ◌||◌, Option, List, [], ◌∷◌, ◌++◌, map, arith,
}
use cloud_run_tcpdump.Text.{Text, equal_fold}
use cloud_run_tcpdump.Ext.{StringFormatter, Mapset, Pcap, Netip}
use cloud_run_tcpdump.Filter.Compat.{Call, is_unset}
use cloud_run_tcpdump.Filter.Compat.Frames.{Frames, return-Frames, bind-Frames}
use cloud_run_tcpdump.Filter.L3Proto
use cloud_run_tcpdump.Filter.L4Proto
use cloud_run_tcpdump.Filter.Provider.{
  Provider, l3_proto, l4_proto, ports, tcp_flags, dns, ip, get, string, describe, Mode,
  apply_filter, join_filter, and,
}
use cloud_run_tcpdump.Filter.Provider.Methods.{apply, apply-apply_filter}
use cloud_run_tcpdump.Filter.Provider.Applied.{apply_all, gets}
use Lists.{get_protos-Frames, get_ports-Frames, get_flags-Frames}
use Hosts.{get_dns-Frames, get_ip-Frames}

module _ (F : StringFormatter) (S : Mapset) (C : Pcap) (N : Netip) where
  pub get-Frames : (p : Provider) → Frames (get F S C N p)
  unfolding get L3Proto.get L4Proto.get
  get-Frames (l3_proto f) = get_protos-Frames S L3Proto.switch F L3Proto.default_filter _ f.raw
  get-Frames (l4_proto f) = get_protos-Frames S L4Proto.switch F L4Proto.default_filter _ f.raw
  get-Frames (ports f) = get_ports-Frames F S f.raw
  get-Frames (tcp_flags f) = get_flags-Frames S C F f.raw
  get-Frames (dns p) = get_dns-Frames S N F p.filter.raw
  get-Frames (ip ipv4 ipv6 p) = get_ip-Frames F S N ipv4.raw ipv6.raw p.filter.raw

  pub string-Frames : (p : Provider) → Frames (string F S C N p)
  unfolding string
  string-Frames p =
      bind-Frames (get F S C N p) (λ filter calls. (describe F S C N p filter, calls))
        (get-Frames p) (λ filter. return-Frames _)

  -- What `Get` returns, and the calls that it makes, on its own.
  abbrev pub filter_of : Provider → Option Text
  filter_of p = (get F S C N p []).0

  abbrev pub added : Provider → List Call
  added p = (get F S C N p []).1

  -- The call is made by one of the providers.
  abbrev pub adds : (Call → Bool) → List Provider → Bool
  adds q ps = any (λ p. any q (added p)) ps

  pub gets-filter_of :
      (ps : List Provider) (calls : List Call) → gets F S C N ps calls ≡ map filter_of ps
  unfolding gets
  gets-filter_of [] calls = refl
  gets-filter_of (p ∷ ps) calls =
      rw (gets, get-Frames p calls, gets-filter_of ps (calls ++ added p)) refl

  pub any-get :
      (q : Call → Bool) (p : Provider) (calls : List Call)
      → any q (get F S C N p calls).1 ≡ (any q calls || any q (added p))
  any-get q p calls = rw (get-Frames p calls) (any-append q calls (added p))

  -- `Apply` of the providers hands over the calls of each.
  pub any-apply_all :
      (q : Call → Bool) (ps : List Provider) (src : Option Text) (calls : List Call)
      → any q (apply_all F S C N ps src calls).1 ≡ (any q calls || adds q ps)
  unfolding apply_all apply_filter
  any-apply_all q [] src calls = ground arith
  any-apply_all q (p ∷ ps) src calls =
      rw (apply_all, apply-apply_filter F S C N p src and calls)
        (ground (
          arith,
          any-apply_all q ps (join_filter F S C N src (get F S C N p calls).0 and)
              (get F S C N p calls).1,
          any-get q p calls,
        ))
