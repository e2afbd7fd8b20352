-- ===== src/Tcpdumpw/Ephemeral/Range.antt =====
-- Which range comes out.
use cloud_run_tcpdump.Prelude.{
  ltb, if◌then◌else◌, Bool-cases, ℕ, ◌<◌, ◌≡◌, refl, ◌∙◌, inl, inr, Bool, true, false, ◌&&◌, ◌||◌,
  Option, none, some, [], ◌∷◌, arith,
}
use cloud_run_tcpdump.Text.{
  Text, text_eq, Parsed, parsed, syntax_error, range_error, parse_uint, max_u16,
}
use cloud_run_tcpdump.Ext.{Pcap, IsPcap}
use cloud_run_tcpdump.Text.Laws.{parse_uint-range}
use cloud_run_tcpdump.Tcpdumpw.Ephemeral.{
  cut, Ports, read_port, read_parts, parse_ephemeral_ports, read_number,
}

abbrev pub is_range_error : Parsed → Bool
is_range_error (parsed n) = false
is_range_error syntax_error = false
is_range_error (range_error n) = true

-- The text is a number that does not fit 16 bits, up to the digit that is one too many.
abbrev pub overflows : Text → Bool
overflows text = is_range_error (parse_uint max_u16 text)

abbrev pub part_overflows : Option (Text × Text) → Bool
part_overflows none = false
part_overflows (some (a, b)) = overflows a || overflows b

read_number-range :
    (first : Bool) (number : Parsed) (r : Ports)
    → ((m : ℕ) → number ≡ range_error m → m ≡ 65535)
    → r.max < 65536
    → read_number first number r
      ≡ (if is_range_error number && ltb r.min 65535 then record r { max = 65535 } else r)
unfolding read_number
read_number-range first (parsed n) r full hi = refl
read_number-range first syntax_error r full hi = refl
read_number-range first (range_error n) r full hi =
    let e : n ≡ 65535 = full n refl in rw e (ground arith)

read_port-range :
    (first : Bool) (text : Text) (r : Ports)
    → r.max < 65536
    → read_port first text r
      ≡ (if overflows text && ltb r.min 65535 then record r { max = 65535 } else r)
unfolding read_port
read_port-range first text r hi =
    read_number-range first (parse_uint max_u16 text) r (parse_uint-range max_u16 text) hi

read_parts-range :
    (o : Option (Text × Text)) (r : Ports)
    → r.max < 65536
    → read_parts o r
      ≡ record r { max = if part_overflows o && ltb r.min 65535 then 65535 else r.max }
unfolding read_parts
read_parts-range none r hi = refl
read_parts-range (some (a, b)) r hi = elim (Bool-cases (overflows a && ltb r.min 65535)) [
  | inl e ↦
      rw (read_port-range true a r hi, e)
        (read_port-range false b (record r { max = 65535 }) (omega arith) ∙ ground arith)
  | inr e ↦ rw (read_port-range true a r hi, e) (read_port-range false b r hi ∙ ground arith)
]

-- The range is the default one, whatever valid range the option names. Only a part that is a number
-- too large for 16 bits changes it: it raises the upper end to 65535.
pub parse_ephemeral_ports-range :
    (C : Pcap) (text : Text)
    → IsPcap C
    → parse_ephemeral_ports C text ≡ record {
      min = C.min_ephemeral_port;
      max =
          if part_overflows (cut text) && ltb C.min_ephemeral_port 65535
          then 65535
          else C.max_ephemeral_port;
    }
unfolding parse_ephemeral_ports cut text_eq
parse_ephemeral_ports-range C [] ok = refl
parse_ephemeral_ports-range C (c ∷ text) ok =
    read_parts-range (cut (c ∷ text))
      (record { min = C.min_ephemeral_port; max = C.max_ephemeral_port }) ok.max_ephemeral_port-lt
