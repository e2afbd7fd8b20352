-- ===== src/Filter/Ip/First.antt =====
-- The first network that `getIPsAndNETs` finds.
use cloud_run_tcpdump.Prelude.{
  Bool-cases, if◌then◌else◌, ◌≡◌, refl, sym, ap, ◌∙◌, inl, inr, ◌&&◌, Option, none, some, List, [],
  ◌∷◌, ◌++◌, arith,
}
use cloud_run_tcpdump.Text.{Text, text_eq, split}
use cloud_run_tcpdump.Text.Laws.{text_eq_iff}
use cloud_run_tcpdump.Ext.{StringFormatter, IsPositional, Netip}
use cloud_run_tcpdump.Filter.Compat.{Call, is_any}
use cloud_run_tcpdump.Filter.Ip.{
  Gathered, default_ipv4_net, default_ipv6_net, gather_net, gather_parsed, gather_one, gather,
  get_ips_and_nets,
}
use cloud_run_tcpdump.Filter.Ip.Gathered.{is_skipped, no_addr, parts, split_pair}

abbrev pub head : List Text → Option Text
head [] = none
head (t ∷ ts) = some t

abbrev pub or_else : Option Text → Option Text → Option Text
or_else none b = b
or_else (some t) b = some t

head-append : (ts us : List Text) → head (ts ++ us) ≡ or_else (head ts) (head us)
head-append [] us = refl
head-append (t ∷ ts) us = refl

or_else_assoc : (a b c : Option Text) → or_else (or_else a b) c ≡ or_else a (or_else b c)
or_else_assoc none b c = refl
or_else_assoc (some t) b c = refl

or_else-none : (a : Option Text) → or_else a none ≡ a
or_else-none none = refl
or_else-none (some t) = refl

module _ (N : Netip) where
  abbrev pub net_of_prefix : Option N.Prefix → Option Text
  net_of_prefix none = none
  net_of_prefix (some net) = if N.is_valid net then some (N.prefix_string net) else none

  -- The network that a part of a raw filter stands for; `ALL` and `ANY` stand for all addresses of
  -- version four first.
  abbrev pub net_of : Text → Option Text
  net_of text =
      if is_skipped text
      then none
      else if is_any text
      then some default_ipv4_net
      else if no_addr N (N.parse_addr text)
      then net_of_prefix (N.parse_prefix text)
      else none

  -- The first network of the raw filters.
  abbrev pub first_net : List Text → Option Text
  first_net [] = none
  first_net (text ∷ texts) = or_else (net_of text) (first_net texts)

  module _ (F : StringFormatter) where
    head-gather_net :
        (text : Text) (o : Option N.Prefix) (g : Gathered)
        → head (gather_net F N text o g).nets ≡ or_else (head g.nets) (net_of_prefix o)
    unfolding gather_net
    head-gather_net text none g = ground (arith, or_else-none (head g.nets))
    head-gather_net text (some net) g =
        ground (arith, or_else-none (head g.nets), head-append g.nets (N.prefix_string net ∷ []))

    head-gather_parsed :
        (text : Text) (o : Option N.Addr) (g : Gathered)
        → head (gather_parsed F N text o g).nets
          ≡ or_else
              (head g.nets)
              (if no_addr N o then net_of_prefix (N.parse_prefix text) else none)
    unfolding gather_parsed
    head-gather_parsed text none g = head-gather_net text (N.parse_prefix text) g
    head-gather_parsed text (some addr) g = ground (arith, or_else-none (head g.nets))

    head-gather_one :
        (text : Text) (g : Gathered)
        → head (gather_one F N text g).nets ≡ or_else (head g.nets) (net_of text)
    unfolding gather_one
    head-gather_one text g = ground (
      arith,
      or_else-none (head g.nets),
      head-append g.nets (default_ipv4_net ∷ default_ipv6_net ∷ []),
      head-gather_parsed text (N.parse_addr text) g,
    )

    head-gather :
        (texts : List Text) (g : Gathered)
        → head (gather F N texts g).nets ≡ or_else (head g.nets) (first_net texts)
    unfolding gather
    head-gather [] g = ground (arith, or_else-none (head g.nets))
    head-gather (text ∷ texts) g =
        head-gather texts (gather_one F N text g)
        ∙ ap (λ o. or_else o (first_net texts)) (head-gather_one text g)
        ∙ or_else_assoc (head g.nets) (net_of text) (first_net texts)

    module _ (P : IsPositional F) where
      -- Two empty raw filters have no network.
      pub first_net_blank : first_net (parts [] []) ≡ none
      unfolding split text_eq
      first_net_blank = refl

      pub head-get_ips_and_nets :
          (ipv4 ipv6 : Text) (calls : List Call)
          → head (get_ips_and_nets F N ipv4 ipv6 calls).nets ≡ first_net (parts ipv4 ipv6)
      unfolding get_ips_and_nets
      head-get_ips_and_nets ipv4 ipv6 calls =
          elim (Bool-cases (text_eq ipv4 [] && text_eq ipv6 [])) [
            | inl e ↦
                let e4 : ipv4 ≡ [] = ground (arith, text_eq_iff ipv4 []) in
                let e6 : ipv6 ≡ [] = ground (arith, text_eq_iff ipv6 []) in
                rw (get_ips_and_nets, e, e4, e6) (sym first_net_blank)
            | inr e ↦
                rw (get_ips_and_nets, e, split_pair N F P ipv4 ipv6)
                  (head-gather (parts ipv4 ipv6) (record { ips = []; nets = []; calls = calls }))
          ]
