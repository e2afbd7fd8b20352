-- ===== src/Filter/Dns/Found.antt =====
-- Which addresses the hosts of a raw filter resolve to.
use cloud_run_tcpdump.Prelude.{
  Bool-cases, any, ◌≡◌, refl, sym, inl, inr, Bool, false, not, ◌&&◌, ◌||◌, Option, none, some, List,
  [], ◌∷◌, arith,
}
use cloud_run_tcpdump.Text.{Text, codes, text_eq, contains, comma, split}
use cloud_run_tcpdump.Ext.{StringFormatter, IsPositional, Mapset, IsMapset, Netip}
use cloud_run_tcpdump.Filter.Compat.{Call, is_unset}
use cloud_run_tcpdump.Filter.Compat.Laws.{only_blank-split_set}
use cloud_run_tcpdump.Filter.Listing.{IsFilter, listing-IsFilter}
use cloud_run_tcpdump.Filter.Dns.{
  host_to_ips, add_parsed, add_resolved, add_ips, add_host, add_hosts, hosts_to_ips, filter_of, get,
}

module _ (N : Netip) where
  abbrev pub reads : Text → Option N.Addr → Bool
  reads ip none = false
  reads ip (some addr) = text_eq (N.addr_string addr) ip

  -- The text parses as an address that is written so.
  abbrev pub is_addr : Text → Text → Bool
  is_addr ip text = reads ip (N.parse_addr text)

  abbrev pub any_addr : Text → Option (List Text) → Bool
  any_addr ip none = false
  any_addr ip (some texts) = any (is_addr ip) texts

  -- The host resolves to the address.
  abbrev pub resolves : Text → Text → Bool
  resolves ip host = not (is_unset host) && any_addr ip (N.lookup_host host)

  -- One of the hosts in the raw filter resolves to the address.
  abbrev pub wanted : Text → Text → Bool
  wanted raw ip = not (is_unset raw) && any (resolves ip) (split raw comma)

  module _ (S : Mapset) where
    -- A host that is not passed over is not empty, so it is looked up.
    pub host_to_ips_lem :
        (host : Text) → is_unset host ≡ false → host_to_ips S N host ≡ N.lookup_host host
    unfolding host_to_ips is_unset
    host_to_ips_lem host h = ground arith

  module _ (S : Mapset) (L : IsMapset S) where
    abbrev has : S.State × List Call → Text → Bool
    has st ip = contains (S.to_slice st.0) ip

    has-add_parsed :
        (text : Text) (o : Option N.Addr) (set : S.State) (calls : List Call) (ip : Text)
        → has (add_parsed S N text o set calls) ip ≡ (reads ip o || contains (S.to_slice set) ip)
    unfolding add_parsed
    has-add_parsed text none set calls ip = refl
    has-add_parsed text (some addr) set calls ip = L.contains-add (N.addr_string addr) set ip

    has-add_ips :
        (texts : List Text) (st : S.State × List Call) (ip : Text)
        → has (add_ips S N texts st) ip ≡ (any (is_addr ip) texts || has st ip)
    unfolding add_ips
    has-add_ips [] st ip = refl
    has-add_ips (text ∷ texts) (set, calls) ip = ground (
      arith,
      has-add_ips texts (add_parsed S N text (N.parse_addr text) set calls) ip,
      has-add_parsed text (N.parse_addr text) set calls ip,
    )

    has-add_resolved :
        (o : Option (List Text)) (st : S.State × List Call) (ip : Text)
        → has (add_resolved S N o st) ip ≡ (any_addr ip o || has st ip)
    unfolding add_resolved
    has-add_resolved none st ip = refl
    has-add_resolved (some ips) st ip = has-add_ips ips st ip

    has-add_host :
        (host : Text) (st : S.State × List Call) (ip : Text)
        → has (add_host S N host st) ip ≡ (resolves ip host || has st ip)
    unfolding add_host
    has-add_host host st ip = elim (Bool-cases (is_unset host)) [
      | inl u ↦ rw (u, add_host)
      | inr u ↦
          rw (u, add_host, host_to_ips_lem S host u) (has-add_resolved (N.lookup_host host) st ip)
    ]

    has-add_hosts :
        (hosts : List Text) (st : S.State × List Call) (ip : Text)
        → has (add_hosts S N hosts st) ip ≡ (any (resolves ip) hosts || has st ip)
    unfolding add_hosts
    has-add_hosts [] st ip = refl
    has-add_hosts (host ∷ hosts) st ip =
        ground (arith, has-add_hosts hosts (add_host S N host st) ip, has-add_host host st ip)

    -- The addresses that `hostsToIPs` returns, none if it returns no set.
    abbrev pub found_has : Option S.State → Text → Bool
    found_has none ip = false
    found_has (some set) ip = contains (S.to_slice set) ip

    pub hosts_to_ips-wanted :
        (raw : Text) (calls : List Call) (ip : Text)
        → found_has (hosts_to_ips S N raw calls).0 ip ≡ wanted raw ip
    unfolding hosts_to_ips contains
    hosts_to_ips-wanted raw calls ip = ground (
      arith,
      only_blank-split_set raw,
      has-add_hosts (split raw comma) (S.new [], calls) ip,
      L.contains-new [] ip,
    )

module _ (F : StringFormatter) (P : IsPositional F) (S : Mapset) (L : IsMapset S) (N : Netip) where
  filter_of-IsFilter :
      (o : Option S.State) (p : Text → Bool)
      → ((ip : Text) → found_has N S L o ip ≡ p ip)
      → IsFilter (codes "host ") p (filter_of F S N o)
  unfolding filter_of
  filter_of-IsFilter none p h = λ ip. sym (h ip)
  filter_of-IsFilter (some set) p h = listing-IsFilter F P S L (codes "host ") refl set p h

  -- `Get` returns `host a or host b …` over exactly the addresses that the hosts of the raw filter
  -- resolve to, as `netip` writes them, each once, and nothing if there is none. Parts that are
  -- empty, `ALL` or `ANY` are passed over, and so is a raw filter that is.
  pub get_dns-wanted :
      (raw : Text) (calls : List Call)
      → IsFilter (codes "host ") (wanted N raw) (get F S N raw calls).0
  unfolding get
  get_dns-wanted raw calls =
      filter_of-IsFilter (hosts_to_ips S N raw calls).0 (wanted N raw)
        (hosts_to_ips-wanted N S L raw calls)
