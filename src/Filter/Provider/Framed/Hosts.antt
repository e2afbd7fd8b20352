-- ===== src/Filter/Provider/Framed/Hosts.antt =====
-- The providers of hosts and addresses do not look at the calls made before their own.
use cloud_run_tcpdump.Prelude.{
  Bool-cases, refl, inl, inr, ◌&&◌, ◌||◌, Option, none, some, List, [], ◌∷◌,
}
use cloud_run_tcpdump.Text.{Text, codes, text_eq, comma, split, equal_fold}
use cloud_run_tcpdump.Ext.{StringFormatter, Mapset, Netip}
use cloud_run_tcpdump.Filter.Compat.{Call, is_unset, is_any, only_blank}
use cloud_run_tcpdump.Filter.Compat.Frames.{Frames, return-Frames, if-Frames, bind-Frames}
use cloud_run_tcpdump.Filter.Dns
use cloud_run_tcpdump.Filter.Ip
use cloud_run_tcpdump.Filter.Ip.{Gathered}

module _ (S : Mapset) (N : Netip) where
  add_parsed-Frames :
      (ip : Text) (o : Option N.Addr) (set : S.State) → Frames (Dns.add_parsed S N ip o set)
  unfolding Dns.add_parsed
  add_parsed-Frames ip none set calls = return-Frames set calls
  add_parsed-Frames ip (some addr) set calls = refl

  add_ips-Frames :
      (ips : List Text) (set : S.State) → Frames (λ calls. Dns.add_ips S N ips (set, calls))
  unfolding Dns.add_ips
  add_ips-Frames [] set = return-Frames set
  add_ips-Frames (ip ∷ ips) set =
      bind-Frames (Dns.add_parsed S N ip (N.parse_addr ip) set)
        (λ a calls. Dns.add_ips S N ips (a, calls)) (add_parsed-Frames ip (N.parse_addr ip) set)
        (add_ips-Frames ips)

  add_resolved-Frames :
      (o : Option (List Text)) (set : S.State)
      → Frames (λ calls. Dns.add_resolved S N o (set, calls))
  unfolding Dns.add_resolved
  add_resolved-Frames none set = return-Frames set
  add_resolved-Frames (some ips) set = add_ips-Frames ips set

  add_hosts-Frames :
      (hosts : List Text) (set : S.State) → Frames (λ calls. Dns.add_hosts S N hosts (set, calls))
  unfolding Dns.add_hosts Dns.add_host
  add_hosts-Frames [] set = return-Frames set
  add_hosts-Frames (host ∷ hosts) set =
      bind-Frames (λ calls. Dns.add_host S N host (set, calls))
        (λ a calls. Dns.add_hosts S N hosts (a, calls))
        (if-Frames (is_unset host) _ _ (return-Frames set)
          (add_resolved-Frames (Dns.host_to_ips S N host) set))
        (add_hosts-Frames hosts)

  hosts_to_ips-Frames : (raw : Text) → Frames (Dns.hosts_to_ips S N raw)
  unfolding Dns.hosts_to_ips
  hosts_to_ips-Frames raw = if-Frames (is_unset raw) _ _ (return-Frames none) (
      if-Frames (only_blank (split raw comma)) _ _ (return-Frames none) (
        bind-Frames (λ calls. Dns.add_hosts S N (split raw comma) (S.new [], calls))
          (λ set calls. (some set, calls)) (add_hosts-Frames (split raw comma) (S.new []))
          (λ set. return-Frames (some set))))

  pub get_dns-Frames : (F : StringFormatter) (raw : Text) → Frames (Dns.get F S N raw)
  unfolding Dns.get
  get_dns-Frames F raw =
      bind-Frames (Dns.hosts_to_ips S N raw) (λ o calls. (Dns.filter_of F S N o, calls))
        (hosts_to_ips-Frames raw) (λ o. return-Frames (Dns.filter_of F S N o))

module _ (F : StringFormatter) (N : Netip) where
  -- What the loop over the parts gathers, its calls aside.
  abbrev gathered : Gathered → (List Text × List Text) × List Call
  gathered g = ((g.ips, g.nets), g.calls)

  -- A part, behind some addresses and networks.
  abbrev from :
      (Gathered → Gathered)
      → List Text × List Text
      → List Call
      → (List Text × List Text) × List Call
  from f st calls = gathered (f (record { ips = st.0; nets = st.1; calls = calls }))

  gather_net-Frames :
      (text : Text) (o : Option N.Prefix) (st : List Text × List Text)
      → Frames (from (Ip.gather_net F N text o) st)
  unfolding Ip.gather_net
  gather_net-Frames text none st calls = return-Frames st calls
  gather_net-Frames text (some net) st calls = elim (Bool-cases (N.is_valid net)) [
    | inl e ↦ rw (e, Ip.gather_net) refl
    | inr e ↦ rw (e, Ip.gather_net) (return-Frames st calls)
  ]

  gather_parsed-Frames :
      (text : Text) (o : Option N.Addr) (st : List Text × List Text)
      → Frames (from (Ip.gather_parsed F N text o) st)
  unfolding Ip.gather_parsed
  gather_parsed-Frames text none st calls = gather_net-Frames text (N.parse_prefix text) st calls
  gather_parsed-Frames text (some addr) st calls = elim (Bool-cases (N.is4 addr || N.is6 addr)) [
    | inl e ↦ rw (e, Ip.gather_parsed) (return-Frames _ calls)
    | inr e ↦ rw (e, Ip.gather_parsed) (return-Frames st calls)
  ]

  gather_one-Frames :
      (text : Text) (st : List Text × List Text) → Frames (from (Ip.gather_one F N text) st)
  unfolding Ip.gather_one
  gather_one-Frames text st calls =
      elim (Bool-cases (text_eq text [] || equal_fold text (codes "DISABLED"))) [
        | inl e ↦ rw (e, Ip.gather_one) (return-Frames st calls)
        | inr e ↦ elim (Bool-cases (is_any text)) [
          | inl a ↦ rw (e, a, Ip.gather_one) (return-Frames _ calls)
          | inr a ↦
              rw (e, a, Ip.gather_one) (gather_parsed-Frames text (N.parse_addr text) st calls)
        ]
      ]

  gather-Frames :
      (texts : List Text) (st : List Text × List Text) → Frames (from (Ip.gather F N texts) st)
  unfolding Ip.gather
  gather-Frames [] st = return-Frames st
  gather-Frames (text ∷ texts) st =
      bind-Frames (from (Ip.gather_one F N text) st) (from (Ip.gather F N texts))
        (gather_one-Frames text st) (gather-Frames texts)

  pub get_ips_and_nets-Frames :
      (ipv4 ipv6 : Text) → Frames (λ calls. gathered (Ip.get_ips_and_nets F N ipv4 ipv6 calls))
  unfolding Ip.get_ips_and_nets
  get_ips_and_nets-Frames ipv4 ipv6 calls =
      let texts = split (F.format (codes "{0},{1}") (ipv4 ∷ ipv6 ∷ [])) comma in
      elim (Bool-cases (text_eq ipv4 [] && text_eq ipv6 [])) [
        | inl e ↦ rw (e, Ip.get_ips_and_nets) (return-Frames _ calls)
        | inr e ↦ rw (e, Ip.get_ips_and_nets) (gather-Frames texts ([], []) calls)
      ]

module _ (S : Mapset) (N : Netip) where
  visit_ip-Frames :
      (net ip : Text) (set : S.State) → Frames (λ calls. Ip.visit S N net ip (set, calls))
  unfolding Ip.visit
  visit_ip-Frames net ip set =
      if-Frames (Ip.covers N net ip) _ _ (return-Frames (S.remove ip set)) (
        if-Frames (Ip.ip_is4 N ip) _ _ (λ calls. refl)
          (if-Frames (Ip.ip_is6 N ip) _ _ (λ calls. refl) (return-Frames set)))

  each_ip-Frames :
      (net : Text) (ips : List Text) (set : S.State)
      → Frames (λ calls. Ip.each S N net ips (set, calls))
  unfolding Ip.each
  each_ip-Frames net [] set = return-Frames set
  each_ip-Frames net (ip ∷ ips) set =
      bind-Frames (λ calls. Ip.visit S N net ip (set, calls))
        (λ a calls. Ip.each S N net ips (a, calls)) (visit_ip-Frames net ip set)
        (each_ip-Frames net ips)

  pub drop_covered-Frames :
      (nets : List Text) (set : S.State) → Frames (λ calls. Ip.drop_covered S N nets (set, calls))
  unfolding Ip.drop_covered
  drop_covered-Frames [] set = return-Frames set
  drop_covered-Frames (net ∷ nets) set =
      bind-Frames (λ calls. Ip.each S N net (S.each_order set) (set, calls))
        (λ a calls. Ip.drop_covered S N nets (a, calls)) (each_ip-Frames net (S.each_order set) set)
        (drop_covered-Frames nets)

module _ (F : StringFormatter) (S : Mapset) (N : Netip) where
  -- The sets of addresses and networks, behind the parts of the raw filters and the hosts.
  abbrev pair_sets : S.State × S.State × List Call → (S.State × S.State) × List Call
  pair_sets (ips, nets, calls) = ((ips, nets), calls)

  sets-Frames :
      (ipv4 ipv6 hosts : Text) → Frames (λ calls. pair_sets (Ip.sets F S N ipv4 ipv6 hosts calls))
  unfolding Ip.sets
  sets-Frames ipv4 ipv6 hosts =
      bind-Frames (λ calls. gathered F N (Ip.get_ips_and_nets F N ipv4 ipv6 calls))
        (λ (g : List Text × List Text) calls.
          let (found, calls') = Dns.hosts_to_ips S N hosts calls in
          let (ip_set, calls'') =
            Ip.drop_covered S N g.1 (Ip.add_found S N found (S.new g.0), calls') in
          ((ip_set, S.new g.1), calls''))
        (get_ips_and_nets-Frames F N ipv4 ipv6)
        (λ (g : List Text × List Text).
          bind-Frames (Dns.hosts_to_ips S N hosts)
            (λ found calls.
              let (ip_set, calls'') =
                Ip.drop_covered S N g.1 (Ip.add_found S N found (S.new g.0), calls) in
              ((ip_set, S.new g.1), calls''))
            (hosts_to_ips-Frames S N hosts)
            (λ found.
              bind-Frames
                (λ calls. Ip.drop_covered S N g.1 (Ip.add_found S N found (S.new g.0), calls))
                (λ ip_set calls. ((ip_set, S.new g.1), calls))
                (drop_covered-Frames S N g.1 (Ip.add_found S N found (S.new g.0)))
                (λ ip_set. return-Frames (ip_set, S.new g.1))))

  pub get_ip-Frames : (ipv4 ipv6 hosts : Text) → Frames (Ip.get F S N ipv4 ipv6 hosts)
  unfolding Ip.get
  get_ip-Frames ipv4 ipv6 hosts =
      if-Frames (text_eq ipv4 [] && text_eq ipv6 [] && text_eq hosts []) _ _ (return-Frames none) (
        bind-Frames (λ calls. pair_sets (Ip.sets F S N ipv4 ipv6 hosts calls))
          (λ st calls. (some (Ip.write F S st.0 st.1), calls)) (sets-Frames ipv4 ipv6 hosts)
          (λ st. return-Frames _))
