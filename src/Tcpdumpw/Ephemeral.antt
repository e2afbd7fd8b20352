-- ===== src/Tcpdumpw/Ephemeral.antt =====
-- `parseEphemeralPorts` in tcpdumpw/main.go.
use cloud_run_tcpdump.Prelude.{
  [], ltb, leb, ◌==◌, if◌then◌else◌, ℕ, ◌%◌, Bool, true, false, ◌&&◌, Option, none, some, ◌∷◌,
}
use cloud_run_tcpdump.Text.{Text, text_eq, comma, Parsed, value, failed, parse_uint, max_u16}
use cloud_run_tcpdump.Ext.{Pcap}
pub mod Range

-- `strings.SplitN(s, ",", 2)` where it gives two parts: the text before the first comma, and
-- behind.
unfoldable pub cut : Text → Option (Text × Text)
cut [] = none
cut (c ∷ s) =
    let rest = cut s in
    if c == comma then some ([], s) else elim rest [ none ↦ none | some (a, b) ↦ some (c ∷ a, b) ]

-- `pcap.PcapEmphemeralPorts`
pub record Ports : Type 0 where
  pub min : ℕ
  pub max : ℕ

-- A round of the loop over the two parts, behind `strconv.ParseUint`; `first` is `i == 0`.
unfoldable pub read_number : Bool → Parsed → Ports → Ports
read_number first number r =
    let port = value number % 65536 in
    if failed number && leb 0x0400 (value number) && leb (value number) 0xFFFF
    then if first && ltb port r.max
      then record r { min = port }
      else if ltb r.min port
      then record r { max = port }
      else r
    else r

unfoldable pub read_port : Bool → Text → Ports → Ports
read_port first text r = read_number first (parse_uint max_u16 text) r

unfoldable pub read_parts : Option (Text × Text) → Ports → Ports
read_parts none r = r
read_parts (some (a, b)) r = read_port false b (read_port true a r)

unfoldable pub parse_ephemeral_ports : Pcap → Text → Ports
parse_ephemeral_ports C text =
    let default : Ports = record { min = C.min_ephemeral_port; max = C.max_ephemeral_port } in
    if text_eq text [] then default else read_parts (cut text) default
