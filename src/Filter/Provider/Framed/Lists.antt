-- ===== src/Filter/Provider/Framed/Lists.antt =====
-- The providers of protocols, ports and TCP flags do not look at the calls made before their own.
use cloud_run_tcpdump.Prelude.{
  leb, ◌==◌, if◌then◌else◌, Bool-cases, refl, inl, inr, Bool, ◌||◌, ℕ, Option, none, some, List, [],
  ◌∷◌,
}
use cloud_run_tcpdump.Text.{
  Text, codes, text_eq, comma, split, to_lower, to_upper, join, value, failed,
}
use cloud_run_tcpdump.Ext.{StringFormatter, Mapset, Pcap}
use cloud_run_tcpdump.Filter.Compat.{Call, is_unset, only_blank}
use cloud_run_tcpdump.Filter.Compat.Frames.{Frames, return-Frames, if-Frames, bind-Frames}
use cloud_run_tcpdump.Filter.Protos
use cloud_run_tcpdump.Filter.Protos.{Case}
use cloud_run_tcpdump.Filter.Ports
use cloud_run_tcpdump.Filter.TcpFlags
use cloud_run_tcpdump.Filter.TcpFlags.{Seen}

module _ (S : Mapset) (switch : Text → Option Case) where
  apply-Frames : (o : Option Case) (set : S.State) → Frames (Protos.apply S o set)
  unfolding Protos.apply
  apply-Frames none set calls = return-Frames set calls
  apply-Frames (some c) set calls = refl

  collect-Frames :
      (protos : List Text) (set : S.State) → Frames (Protos.collect S switch protos set)
  unfolding Protos.collect
  collect-Frames [] set = return-Frames set
  collect-Frames (proto ∷ protos) set =
      bind-Frames (Protos.apply S (switch proto) set) (Protos.collect S switch protos)
        (apply-Frames (switch proto) set) (λ a. collect-Frames protos a)

  module _ (F : StringFormatter) (default : Text) where
    pub get_protos-Frames :
        (is_default : Bool) (raw : Text) → Frames (Protos.get F S switch default is_default raw)
    unfolding Protos.get
    get_protos-Frames is_default raw = if-Frames is_default _ _ (return-Frames (some default)) (
        if-Frames (only_blank (split raw comma)) _ _ (return-Frames (some default)) (
          bind-Frames (Protos.collect S switch (split raw comma) (S.new []))
            (λ set calls. if S.is_empty set then (some default, calls) else (
              some (F.format (codes "{0}") (join (S.to_slice set) (codes " or ") ∷ [])),
              calls,
            ))
            (collect-Frames (split raw comma) (S.new []))
            (λ set. if-Frames (S.is_empty set) _ _ (return-Frames _) (return-Frames _))))

module _ (F : StringFormatter) (S : Mapset) where
  visit_port-Frames :
      (port : Text) (set : S.State) → Frames (λ calls. Ports.visit S port (set, calls))
  unfolding Ports.visit
  visit_port-Frames port set = if-Frames (is_unset port) _ _ (return-Frames (S.remove port set)) (
      if-Frames (failed (Ports.port_of port) || leb (value (Ports.port_of port)) 0xFFFF) _ _
        (λ calls. refl) (return-Frames (S.remove port set)))

  each_port-Frames :
      (ports : List Text) (set : S.State) → Frames (λ calls. Ports.each S ports (set, calls))
  unfolding Ports.each
  each_port-Frames [] set = return-Frames set
  each_port-Frames (port ∷ ports) set =
      bind-Frames (λ calls. Ports.visit S port (set, calls))
        (λ a calls. Ports.each S ports (a, calls)) (visit_port-Frames port set)
        (each_port-Frames ports)

  pub get_ports-Frames : (raw : Text) → Frames (Ports.get F S raw)
  unfolding Ports.get
  get_ports-Frames raw =
      let ports = split (to_lower raw) comma in
      if-Frames (text_eq raw []) _ _ (return-Frames none) (
        if-Frames (only_blank ports) _ _ (return-Frames none) (
          bind-Frames (λ calls. Ports.each S (S.each_order (S.new ports)) (S.new ports, calls))
            (λ set calls. if S.is_empty set then (none, calls) else (
              some (F.format (codes "port {0}") (join (S.to_slice set) (codes " or port ") ∷ [])),
              calls,
            ))
            (each_port-Frames (S.each_order (S.new ports)) (S.new ports))
            (λ set. if-Frames (S.is_empty set) _ _ (return-Frames none) (return-Frames _))))

module _ (S : Mapset) (C : Pcap) where
  -- What a loop over flags leaves, its calls aside.
  abbrev seen : Seen S → (S.State × ℕ) × List Call
  seen st = ((st.set, st.bits), st.calls)

  visit_flag-Frames :
      (flag : Text) (set : S.State) (bits : ℕ)
      → Frames (λ calls.
        seen (TcpFlags.visit S C flag (record { set = set; bits = bits; calls = calls })))
  unfolding TcpFlags.visit
  visit_flag-Frames flag set bits calls =
      elim (Bool-cases (C.tcp_flag_to_uint8 (to_upper flag) == 0)) [
        | inl e ↦ rw (e, TcpFlags.visit) (return-Frames _ calls)
        | inr e ↦ rw (e, TcpFlags.visit) refl
      ]

  each_flag-Frames :
      (flags : List Text) (st : S.State × ℕ)
      → Frames (λ calls.
        seen (TcpFlags.each S C flags (record { set = st.0; bits = st.1; calls = calls })))
  unfolding TcpFlags.each
  each_flag-Frames [] st = return-Frames st
  each_flag-Frames (flag ∷ flags) st =
      bind-Frames
        (λ calls.
          seen (TcpFlags.visit S C flag (record { set = st.0; bits = st.1; calls = calls })))
        (λ a calls.
          seen (TcpFlags.each S C flags (record { set = a.0; bits = a.1; calls = calls })))
        (visit_flag-Frames flag st.0 st.1) (each_flag-Frames flags)

  pub get_flags-Frames : (F : StringFormatter) (raw : Text) → Frames (TcpFlags.get F S C raw)
  unfolding TcpFlags.get
  get_flags-Frames F raw =
      let flags = split (to_lower raw) comma in
      if-Frames (is_unset raw) _ _ (return-Frames none) (
        if-Frames (only_blank flags) _ _ (return-Frames none) (
          bind-Frames
            (λ calls. seen (
              TcpFlags.each S C (S.each_order (S.new flags))
                (record { set = S.new flags; bits = 0; calls = calls })))
            (λ st calls.
              if st.1 == 0 || S.is_empty st.0
              then (none, calls)
              else (some (TcpFlags.write F (S.to_slice st.0) st.1), calls))
            (each_flag-Frames (S.each_order (S.new flags)) (S.new flags, 0))
            (λ st.
              if-Frames (st.1 == 0 || S.is_empty st.0) _ _ (return-Frames none) (return-Frames _))))
