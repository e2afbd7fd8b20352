-- ===== src/Filter/Ip/Gathered.antt =====
-- What `getIPsAndNETs` reads from the two raw filters.
use cloud_run_tcpdump.Prelude.{
  ◌==◌, if◌then◌else◌, Bool-cases, is_nil, any, ℕ, ◌≡◌, refl, sym, inl, inr, Bool, true, false, not,
  ◌&&◌, ◌||◌, Option, none, some, List, [], ◌∷◌, ◌++◌, append-nil, arith,
}
use cloud_run_tcpdump.Text.{Text, codes, text_eq, contains, equal_fold, comma, split, push}
use cloud_run_tcpdump.Text.Laws.{text_eq_iff, contains-append}
use cloud_run_tcpdump.Ext.{StringFormatter, IsPositional, lit, arg, Netip}
use cloud_run_tcpdump.Filter.Compat.{Call, is_any}
use cloud_run_tcpdump.Filter.Compat.Laws.{split-ne-nil}
use cloud_run_tcpdump.Filter.Ip.{
  Gathered, default_ipv4_net, default_ipv6_net, gather_net, gather, get_ips_and_nets, gather_one,
  gather_parsed,
}

-- The part is neither empty nor `DISABLED`.
abbrev pub is_skipped : Text → Bool
is_skipped text = text_eq text [] || equal_fold text (codes "DISABLED")

push-append : (c : ℕ) (ps qs : List Text) → is_nil ps ≡ false → push c (ps ++ qs) ≡ push c ps ++ qs
unfolding push
push-append c [] qs h = cc
push-append c (p ∷ ps) qs h = refl

split-append : (s t : Text) → split (s ++ (comma ∷ t)) comma ≡ split s comma ++ split t comma
unfolding split
split-append [] t = refl
split-append (c ∷ s) t = elim (Bool-cases (c == comma)) [
  | inl e ↦ rw (e, split-append s t)
  | inr e ↦
      rw (e, split-append s t)
        (push-append c (split s comma) (split t comma) (split-ne-nil s comma))
]

-- The parts of both raw filters.
abbrev pub parts : Text → Text → List Text
parts ipv4 ipv6 = split ipv4 comma ++ split ipv6 comma

module _ (N : Netip) where
  abbrev pub versioned : Text → Option N.Addr → Bool
  versioned ip none = false
  versioned ip (some addr) = (N.is4 addr || N.is6 addr) && text_eq (N.addr_string addr) ip

  abbrev pub valid_net : Text → Option N.Prefix → Bool
  valid_net net none = false
  valid_net net (some prefix) = N.is_valid prefix && text_eq (N.prefix_string prefix) net

  -- The part is this address.
  abbrev pub gives_ip : Text → Text → Bool
  gives_ip ip text = not (is_skipped text) && not (is_any text) && versioned ip (N.parse_addr text)

  abbrev pub no_addr : Option N.Addr → Bool
  no_addr none = true
  no_addr (some addr) = false

  -- The part is this network, or it is `ALL` or `ANY` and this is one of the two default networks.
  abbrev pub gives_net : Text → Text → Bool
  gives_net net text =
      not (is_skipped text)
      && (if is_any text
          then contains (default_ipv4_net ∷ default_ipv6_net ∷ []) net
          else no_addr (N.parse_addr text) && valid_net net (N.parse_prefix text))

  module _ (F : StringFormatter) where
    gather_net-ips :
        (text : Text) (o : Option N.Prefix) (g : Gathered) → (gather_net F N text o g).ips ≡ g.ips
    unfolding gather_net
    gather_net-ips text none g = refl
    gather_net-ips text (some net) g = ground arith

    gather_net-nets :
        (text : Text) (o : Option N.Prefix) (g : Gathered) (t : Text)
        → contains (gather_net F N text o g).nets t ≡ (contains g.nets t || valid_net t o)
    unfolding gather_net contains
    gather_net-nets text none g t = ground arith
    gather_net-nets text (some net) g t =
        ground (arith, contains-append g.nets (N.prefix_string net ∷ []) t)

    gather_parsed-ips :
        (text : Text) (o : Option N.Addr) (g : Gathered) (t : Text)
        → contains (gather_parsed F N text o g).ips t ≡ (contains g.ips t || versioned t o)
    unfolding gather_parsed contains
    gather_parsed-ips text none g t = ground (arith, gather_net-ips text (N.parse_prefix text) g)
    gather_parsed-ips text (some addr) g t =
        ground (arith, contains-append g.ips (N.addr_string addr ∷ []) t)

    gather_parsed-nets :
        (text : Text) (o : Option N.Addr) (g : Gathered) (t : Text)
        → contains (gather_parsed F N text o g).nets t
          ≡ (contains g.nets t || no_addr o && valid_net t (N.parse_prefix text))
    unfolding gather_parsed
    gather_parsed-nets text none g t = gather_net-nets text (N.parse_prefix text) g t
    gather_parsed-nets text (some addr) g t = ground arith

    gather_one-ips :
        (text : Text) (g : Gathered) (t : Text)
        → contains (gather_one F N text g).ips t ≡ (contains g.ips t || gives_ip t text)
    unfolding gather_one
    gather_one-ips text g t = ground (arith, gather_parsed-ips text (N.parse_addr text) g t)

    gather_one-nets :
        (text : Text) (g : Gathered) (t : Text)
        → contains (gather_one F N text g).nets t ≡ (contains g.nets t || gives_net t text)
    unfolding gather_one
    gather_one-nets text g t = ground (
      arith,
      gather_parsed-nets text (N.parse_addr text) g t,
      contains-append g.nets (default_ipv4_net ∷ default_ipv6_net ∷ []) t,
    )

    gather-ips :
        (texts : List Text) (g : Gathered) (t : Text)
        → contains (gather F N texts g).ips t ≡ (contains g.ips t || any (gives_ip t) texts)
    unfolding gather
    gather-ips [] g t = ground arith
    gather-ips (text ∷ texts) g t =
        ground (arith, gather-ips texts (gather_one F N text g) t, gather_one-ips text g t)

    gather-nets :
        (texts : List Text) (g : Gathered) (t : Text)
        → contains (gather F N texts g).nets t ≡ (contains g.nets t || any (gives_net t) texts)
    unfolding gather
    gather-nets [] g t = ground arith
    gather-nets (text ∷ texts) g t =
        ground (arith, gather-nets texts (gather_one F N text g) t, gather_one-nets text g t)

    module _ (P : IsPositional F) where
      pub split_pair :
          (ipv4 ipv6 : Text)
          → split (F.format (codes "{0},{1}") (ipv4 ∷ ipv6 ∷ [])) comma ≡ parts ipv4 ipv6
      split_pair ipv4 ipv6 =
          rw
            (
              P.format-template (arg 0 ∷ lit (codes ",") ∷ arg 1 ∷ []) (ipv4 ∷ ipv6 ∷ []) refl,
              append-nil ipv6,
            )
            (split-append ipv4 ipv6)

      blank_ips : (t : Text) → any (gives_ip t) (parts [] []) ≡ false
      unfolding split text_eq
      blank_ips t = refl

      blank_nets : (t : Text) → any (gives_net t) (parts [] []) ≡ false
      unfolding split text_eq
      blank_nets t = refl

      module _ (ipv4 ipv6 : Text) (calls : List Call) where
        abbrev start : Gathered
        start = record { ips = []; nets = []; calls = calls }

        get_blank :
            (text_eq ipv4 [] && text_eq ipv6 []) ≡ true
            → (get_ips_and_nets F N ipv4 ipv6 calls ≡ start) × (ipv4 ≡ []) × (ipv6 ≡ [])
        unfolding get_ips_and_nets
        get_blank h = (
          rw (h, get_ips_and_nets),
          ground (arith, text_eq_iff ipv4 []),
          ground (arith, text_eq_iff ipv6 []),
        )

        get_full :
            (text_eq ipv4 [] && text_eq ipv6 []) ≡ false
            → get_ips_and_nets F N ipv4 ipv6 calls ≡ gather F N (parts ipv4 ipv6) start
        unfolding get_ips_and_nets
        get_full h = rw (h, get_ips_and_nets) (rw (split_pair ipv4 ipv6))

        -- The slice of addresses, and the slice of networks.
        pub gathered-ips :
            (t : Text)
            → contains (get_ips_and_nets F N ipv4 ipv6 calls).ips t
              ≡ any (gives_ip t) (parts ipv4 ipv6)
        unfolding contains
        gathered-ips t = elim (Bool-cases (text_eq ipv4 [] && text_eq ipv6 [])) [
          | inl e ↦ let (g, e4, e6) = get_blank e in rw (g, e4, e6) (sym (blank_ips t))
          | inr e ↦ rw (get_full e) (gather-ips (parts ipv4 ipv6) start t)
        ]

        pub gathered-nets :
            (t : Text)
            → contains (get_ips_and_nets F N ipv4 ipv6 calls).nets t
              ≡ any (gives_net t) (parts ipv4 ipv6)
        unfolding contains
        gathered-nets t = elim (Bool-cases (text_eq ipv4 [] && text_eq ipv6 [])) [
          | inl e ↦ let (g, e4, e6) = get_blank e in rw (g, e4, e6) (sym (blank_nets t))
          | inr e ↦ rw (get_full e) (gather-nets (parts ipv4 ipv6) start t)
        ]
