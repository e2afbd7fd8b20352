-- ===== src/Filter/Ip/Uncalled.antt =====
-- Which calls the configured addresses make on the compatibility filters.
use cloud_run_tcpdump.Prelude.{
  Bool-cases, any, ◌≡◌, refl, ◌∙◌, inl, inr, Bool, true, false, not, ◌&&◌, ◌||◌, Option, none, some,
  List, [], ◌∷◌, arith,
}
use cloud_run_tcpdump.Text.{Text, text_eq}
use cloud_run_tcpdump.Ext.{StringFormatter, IsPositional, Mapset, Netip}
use cloud_run_tcpdump.Filter.Compat.{Call, is_any, is_unset}
use cloud_run_tcpdump.Filter.Dns
use cloud_run_tcpdump.Filter.Ip.{
  Gathered, gather_net, gather_parsed, gather_one, gather, get_ips_and_nets, drop_covered, sets,
  get,
}
use cloud_run_tcpdump.Filter.Ip.Gathered.{is_skipped, parts, no_addr, split_pair}

module _ (N : Netip) where
  abbrev pub is_valid_net : Option N.Prefix → Bool
  is_valid_net none = false
  is_valid_net (some net) = N.is_valid net

  -- The part of a raw filter stands for a network.
  abbrev pub is_net : Text → Bool
  is_net text =
      not (is_skipped text)
      && (is_any text || (no_addr N (N.parse_addr text) && is_valid_net (N.parse_prefix text)))

  module _ (F : StringFormatter) where
    -- No network was found, and no call was made.
    abbrev IsQuiet : Gathered → Gathered → Type 0
    IsQuiet g g' = (g'.nets ≡ g.nets) × (g'.calls ≡ g.calls)

    gather_net-IsQuiet :
        (text : Text) (o : Option N.Prefix) (g : Gathered)
        → is_valid_net o ≡ false
        → IsQuiet g (gather_net F N text o g)
    unfolding gather_net
    gather_net-IsQuiet text none g h = (refl, refl)
    gather_net-IsQuiet text (some net) g h = rw h (refl, refl)

    gather_parsed-IsQuiet :
        (text : Text) (o : Option N.Addr) (g : Gathered)
        → (no_addr N o && is_valid_net (N.parse_prefix text)) ≡ false
        → IsQuiet g (gather_parsed F N text o g)
    unfolding gather_parsed
    gather_parsed-IsQuiet text none g h = gather_net-IsQuiet text (N.parse_prefix text) g h
    gather_parsed-IsQuiet text (some addr) g h = ground arith

    gather_one-IsQuiet :
        (text : Text) (g : Gathered) → is_net text ≡ false → IsQuiet g (gather_one F N text g)
    unfolding gather_one
    gather_one-IsQuiet text g h = ground (arith, gather_parsed-IsQuiet text (N.parse_addr text) g)

    gather-IsQuiet :
        (texts : List Text) (g : Gathered)
        → any is_net texts ≡ false
        → IsQuiet g (gather F N texts g)
    unfolding gather
    gather-IsQuiet [] g h = (refl, refl)
    gather-IsQuiet (text ∷ texts) g h =
        let here : is_net text ≡ false = ground arith in
        let more : any is_net texts ≡ false = ground arith in
        let (n, c) = gather_one-IsQuiet text g here in
        let (n', c') = gather-IsQuiet texts (gather_one F N text g) more in (n' ∙ n, c' ∙ c)

    module _ (P : IsPositional F) (S : Mapset) (ipv4 ipv6 hosts : Text) (calls : List Call) where
      abbrev first : Gathered
      first = record { ips = []; nets = []; calls = calls }

      get_ips_and_nets-IsQuiet :
          any is_net (parts ipv4 ipv6) ≡ false
          → IsQuiet first (get_ips_and_nets F N ipv4 ipv6 calls)
      unfolding get_ips_and_nets
      get_ips_and_nets-IsQuiet h = elim (Bool-cases (text_eq ipv4 [] && text_eq ipv6 [])) [
        | inl e ↦ rw (get_ips_and_nets, e) (refl, refl)
        | inr e ↦
            rw (get_ips_and_nets, e, split_pair N F P ipv4 ipv6)
              (gather-IsQuiet (parts ipv4 ipv6) first h)
      ]

      blank_hosts : text_eq hosts [] ≡ true → Dns.hosts_to_ips S N hosts calls ≡ (none, calls)
      unfolding Dns.hosts_to_ips is_unset
      blank_hosts h = rw (Dns.hosts_to_ips, is_unset, h) refl

      -- If no part of the two raw filters for addresses stands for a network, `Get` makes
      -- no call but those of the hosts: no configured address gets into the compatibility
      -- filters.
      get_calls-no_net :
          any is_net (parts ipv4 ipv6) ≡ false
          → (get F S N ipv4 ipv6 hosts calls).1 ≡ (Dns.hosts_to_ips S N hosts calls).1
      unfolding get sets drop_covered
      get_calls-no_net h =
          let (n, c) = get_ips_and_nets-IsQuiet h in
          elim (Bool-cases (text_eq ipv4 [] && text_eq ipv6 [] && text_eq hosts [])) [
            | inl e ↦
                let blank : text_eq hosts [] ≡ true = ground arith in
                rw (get, e, blank_hosts blank) refl
            | inr e ↦ rw (get, e, sets, n, c) refl
          ]
