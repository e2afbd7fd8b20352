-- ===== src/Tcpdumpw/Setup.antt =====
-- `appendFilter`, and the part of `main` in tcpdumpw/main.go that chooses the filters.
use cloud_run_tcpdump.Prelude.{
  [], leb, ◌==◌, if◌then◌else◌, is_nil, ℕ, Bool, not, ◌&&◌, ◌||◌, Option, none, some, List, ◌∷◌,
  ◌++◌,
}
use cloud_run_tcpdump.Text.{Text, codes, text_eq, equal_fold}
use cloud_run_tcpdump.Ext.{StringFormatter, Mapset, Pcap, Netip}
use cloud_run_tcpdump.Filter.Compat.{Call, is_unset}
pub mod Choice
pub mod Calls
use cloud_run_tcpdump.Filter.Provider
use cloud_run_tcpdump.Filter.Provider.{Provider}
use cloud_run_tcpdump.Filter.Provider.Factory.{
  new_l3_proto_filter_provider, new_l4_proto_filter_provider, new_ports_filter_provider,
  new_tcp_flags_filter_provider, new_ip_filter_provider,
}

-- `strings.TrimSpace` on ASCII.
unfoldable pub is_space : ℕ → Bool
is_space c = leb 9 c && leb c 13 || c == 32

unfoldable pub trim_left : Text → Text
trim_left [] = []
trim_left (c ∷ t) = let rest = trim_left t in if is_space c then rest else c ∷ t

unfoldable pub trim_right : Text → Text
trim_right [] = []
trim_right (c ∷ t) = let rest = trim_right t in if is_space c && is_nil rest then [] else c ∷ rest

unfoldable pub trim_space : Text → Text
trim_space t = trim_right (trim_left t)

-- The options of the command line that choose the filter.
pub record Options : Type 0 where
  pub compat : Bool
  pub filter : Text
  pub l3_protos : Text
  pub l4_protos : Text
  pub ports_list : Text
  pub flags : Text
  pub ipv4 : Text
  pub ipv6 : Text
  pub hosts : Text

-- The providers chosen, and the calls made on the compatibility filters.
abbrev pub Chosen : Type 0
Chosen = record { filters : List Provider; calls : List Call }

module _ (F : StringFormatter) (S : Mapset) (C : Pcap) (N : Netip) where
  -- A provider is added and logged: its text comes from `Get`, which makes its calls.
  unfoldable pub use_filter : Provider → Chosen → Chosen
  use_filter provider st =
      let (text, calls) = Provider.string F S C N provider st.calls in
      record { filters = st.filters ++ (provider ∷ []); calls = calls }

  -- `appendFilter`, for a context that is not done.
  unfoldable pub append_filter : Text → (Text → Provider) → Chosen → Chosen
  append_filter raw factory st = if is_unset raw then st else use_filter (factory raw) st

  unfoldable pub use_found : Option Text → Provider → Chosen → Chosen
  use_found none provider st = st
  use_found (some filter) provider st = use_filter provider st

  -- The IP provider has a `Get` of its own before the one for its text.
  unfoldable pub append_ip_filter : Options → Chosen → Chosen
  append_ip_filter o st =
      let provider = new_ip_filter_provider o.ipv4 o.ipv6 o.hosts in
      let (filter, calls) = Provider.get F S C N provider st.calls in
      let tried : Chosen = record { filters = st.filters; calls = calls } in
      use_found filter provider tried

  -- The simple filters, in the order of `main`.
  unfoldable pub simple_filters : Options → Chosen
  simple_filters o = append_ip_filter o (
      append_filter o.flags new_tcp_flags_filter_provider (
        append_filter o.ports_list new_ports_filter_provider (
          append_filter o.l4_protos new_l4_proto_filter_provider (
            append_filter o.l3_protos new_l3_proto_filter_provider
              (record { filters = []; calls = [] })))))

  -- The value of `*filter` behind the first test of `main`.
  unfoldable pub given_filter : Options → Text
  given_filter o =
      if o.compat || equal_fold o.filter (codes "DISABLED") then [] else trim_space o.filter

  -- The filter and the providers that are handed to `createTasks`.
  unfoldable pub choose : Options → Text × Chosen
  choose o =
      let filter = given_filter o in
      if o.compat || text_eq filter []
      then (let st = simple_filters o in
          (if is_nil st.filters && not o.compat then C.default_filter else filter, st))
      else (filter, record { filters = []; calls = [] })
