-- ===== src/Filter/Ip/Written.antt =====
-- The filter that `IPFilterProvider.Get` writes.
use cloud_run_tcpdump.Filter.Ip.Covered.{has-add_found, has-drop_covered}
use cloud_run_tcpdump.Filter.Dns
use cloud_run_tcpdump.Prelude.{
  if◌then◌else◌, Bool-cases, any, ◌≡◌, refl, ◌∙◌, inl, inr, Bool, true, false, not, ◌&&◌, ◌||◌,
  Option, none, some, List, [], ◌∷◌, ◌++◌, arith,
}
use cloud_run_tcpdump.Text.{Text, codes, text_eq, contains}
use cloud_run_tcpdump.Ext.{StringFormatter, IsPositional, lit, arg, Mapset, IsMapset, Netip}
use cloud_run_tcpdump.Filter.Compat.{Call}
use cloud_run_tcpdump.Filter.Listing.{IsFilter, listing, listing_lem, listing-IsFilter}
use cloud_run_tcpdump.Filter.Dns.Found
use cloud_run_tcpdump.Filter.Ip.{
  default_ip_filter, covers, get_ips_and_nets, Gathered, add_found, terms, compose, write, get,
  sets,
}
use cloud_run_tcpdump.Filter.Ip.Gathered.{parts, gives_ip, gives_net, gathered-nets, gathered-ips}

-- Two optional filters side by side, and all addresses if there is none.
abbrev pub beside : Option Text → Option Text → Text
beside (some h) (some n) = codes "(" ++ (h ++ (codes ") or (" ++ (n ++ codes ")")))
beside (some h) none = h
beside none (some n) = n
beside none none = default_ip_filter

module _ (F : StringFormatter) (N : Netip) (ipv4 ipv6 hosts : Text) (calls : List Call) where
  abbrev pub networks : List Text
  networks = (get_ips_and_nets F N ipv4 ipv6 calls).nets

  -- A part of the filters for addresses, or an address of a host, that no network contains.
  abbrev pub wanted_ip : Text → Bool
  wanted_ip ip =
      (any (gives_ip N ip) (parts ipv4 ipv6) || Found.wanted N hosts ip)
      && not (any (λ net. covers N net ip) networks)

  abbrev pub wanted_net : Text → Bool
  wanted_net net = any (gives_net N net) (parts ipv4 ipv6)

  pub record IsIpText (t : Text) : Type 0 where
    pub addresses : Option Text
    pub addresses_lem : IsFilter (codes "host ") wanted_ip addresses
    pub nets : Option Text
    pub nets_lem : IsFilter (codes "net ") wanted_net nets
    pub text_lem : t ≡ beside addresses nets

  -- There is no filter exactly if all three raw filters are empty.
  abbrev pub IsIpFilter : Option Text → Type 0
  IsIpFilter none = (text_eq ipv4 [] && text_eq ipv6 [] && text_eq hosts []) ≡ true
  IsIpFilter (some t) =
      IsIpText t × ((text_eq ipv4 [] && text_eq ipv6 [] && text_eq hosts []) ≡ false)

module _ (F : StringFormatter) (P : IsPositional F) (S : Mapset) (L : IsMapset S) where
  abbrev hosts_of : S.State → Option Text
  hosts_of set = if S.is_empty set then none else some (listing F P S L (codes "host ") refl set)

  abbrev nets_of : S.State → Option Text
  nets_of set = if S.is_empty set then none else some (listing F P S L (codes "net ") refl set)

  host_nonblank : (set : S.State) → text_eq (listing F P S L (codes "host ") refl set) [] ≡ false
  unfolding text_eq
  host_nonblank set = rw (listing_lem F P S L (codes "host ") refl set)

  net_nonblank : (set : S.State) → text_eq (listing F P S L (codes "net ") refl set) [] ≡ false
  unfolding text_eq
  net_nonblank set = rw (listing_lem F P S L (codes "net ") refl set)

  pair_lem :
      (h n : Text) → F.format (codes "({0}) or ({1})") (h ∷ n ∷ []) ≡ beside (some h) (some n)
  pair_lem h n =
      P.format-template
        (lit (codes "(") ∷ arg 0 ∷ lit (codes ") or (") ∷ arg 1 ∷ lit (codes ")") ∷ []) (h ∷ n ∷ [])
        refl

  abbrev text_of : Option Text → Text
  text_of none = []
  text_of (some t) = t

  abbrev IsFull : Option Text → Type 0
  IsFull none = Unit
  IsFull (some t) = text_eq t [] ≡ false

  compose-beside :
      (h n : Option Text) → IsFull h → IsFull n → compose F S (text_of h) (text_of n) ≡ beside h n
  unfolding compose text_eq
  compose-beside none none fh fn = refl
  compose-beside none (some n) fh fn = rw fn
  compose-beside (some h) none fh fn = rw fh
  compose-beside (some h) (some n) fh fn = rw (fh, fn) (pair_lem h n)

  terms-hosts :
      (set : S.State)
      → (terms F S (codes "host {0}") (codes " or host ") set ≡ text_of (hosts_of set))
        × IsFull (hosts_of set)
  unfolding terms
  terms-hosts set = elim (Bool-cases (S.is_empty set)) [
    | inl e ↦ (rw (e, terms), rw e tt)
    | inr e ↦ (rw (e, terms), rw e (host_nonblank set))
  ]

  terms-nets :
      (set : S.State)
      → (terms F S (codes "net {0}") (codes " or net ") set ≡ text_of (nets_of set))
        × IsFull (nets_of set)
  unfolding terms
  terms-nets set = elim (Bool-cases (S.is_empty set)) [
    | inl e ↦ (rw (e, terms), rw e tt)
    | inr e ↦ (rw (e, terms), rw e (net_nonblank set))
  ]

  write-beside :
      (ip_set net_set : S.State)
      → write F S ip_set net_set ≡ beside (hosts_of ip_set) (nets_of net_set)
  unfolding write
  write-beside ip_set net_set =
      let (e, fe) = terms-hosts ip_set in
      let (g, fg) = terms-nets net_set in
      rw (e, g) (compose-beside (hosts_of ip_set) (nets_of net_set) fe fg)

module _ (F : StringFormatter) (P : IsPositional F) (S : Mapset) (L : IsMapset S) (N : Netip)
    (ipv4 ipv6 hosts : Text) (calls : List Call) where
  abbrev g : Gathered
  g = get_ips_and_nets F N ipv4 ipv6 calls

  has-ip_set :
      (ip : Text)
      → contains (S.to_slice (sets F S N ipv4 ipv6 hosts calls).0) ip
        ≡ wanted_ip F N ipv4 ipv6 hosts calls ip
  unfolding sets
  has-ip_set ip =
      let found = Dns.hosts_to_ips S N hosts g.calls in
      let start = add_found S N found.0 (S.new g.ips) in
      ground (
        arith,
        has-drop_covered S L N g.nets (start, found.1) ip,
        has-add_found S L N found.0 (S.new g.ips) ip,
        L.contains-new g.ips ip,
        gathered-ips N F P ipv4 ipv6 calls ip,
        Found.hosts_to_ips-wanted N S L hosts g.calls ip,
      )

  has-net_set :
      (net : Text)
      → contains (S.to_slice (sets F S N ipv4 ipv6 hosts calls).1) net
        ≡ wanted_net F N ipv4 ipv6 hosts calls net
  unfolding sets
  has-net_set net = L.contains-new g.nets net ∙ gathered-nets N F P ipv4 ipv6 calls net

  -- `Get` returns no filter exactly if all three raw filters are empty. Any other filter has
  -- `host a or host b …` over exactly the addresses that are wanted and that no network contains,
  -- and `net c or net d …` over exactly the networks that are wanted, each entry once. Both stand
  -- in parentheses if there are both, and all addresses are let through if there is neither.
  pub get-IsIpFilter : IsIpFilter F N ipv4 ipv6 hosts calls (get F S N ipv4 ipv6 hosts calls).0
  unfolding get
  get-IsIpFilter = elim (Bool-cases (text_eq ipv4 [] && text_eq ipv6 [] && text_eq hosts [])) [
    | inl e ↦ rw (e, get) e
    | inr e ↦
        let st = sets F S N ipv4 ipv6 hosts calls in
        rw (e, get)
          (
            record {
              addresses = hosts_of F P S L st.0;
              addresses_lem =
                  listing-IsFilter F P S L (codes "host ") refl st.0
                    (wanted_ip F N ipv4 ipv6 hosts calls) has-ip_set;
              nets = nets_of F P S L st.1;
              nets_lem =
                  listing-IsFilter F P S L (codes "net ") refl st.1
                    (wanted_net F N ipv4 ipv6 hosts calls) has-net_set;
              text_lem = write-beside F P S L st.0 st.1;
            },
            e,
          )
  ]
