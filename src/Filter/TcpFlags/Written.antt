-- ===== src/Filter/TcpFlags/Written.antt =====
-- The filter that `TCPFlagsFilterProvider.Get` writes.
use cloud_run_tcpdump.Prelude.{
  ◌==◌, if◌then◌else◌, Bool-cases, Bool-ext, all, ℕ, ◌≡◌, refl, sym, ◌∙◌, inl, inr, Bool, true,
  false, not, ◌&&◌, ◌||◌, Option, none, some, List, [], ◌∷◌, ◌++◌, append_assoc, append-nil, arith,
}
use cloud_run_tcpdump.Text.{Text, codes, text_eq, contains, to_lower, comma, split, join}
use cloud_run_tcpdump.Text.Laws.{contains-all, text_eq_refl}
use cloud_run_tcpdump.Ext.{
  StringFormatter, IsPositional, lit, arg, Mapset, IsMapset, distinct, Pcap,
}
use cloud_run_tcpdump.Filter.Compat.{Call, is_unset, only_blank}
use cloud_run_tcpdump.Ext.Laws.{contains-eq_nil}
use cloud_run_tcpdump.Filter.Compat.Laws.{only_blank-split}
use cloud_run_tcpdump.Filter.TcpFlags.{Seen, format_hex, each, write, get}
use cloud_run_tcpdump.Filter.TcpFlags.Kept.{
  is_lowered, split-is_lowered, bits_of, or_all, or_all-eq_zero, dropped, removed-dropped, each_set,
  each_bits,
}

-- The parts of the raw filter.
abbrev pub parts : Text → List Text
parts raw = split (to_lower raw) comma

-- A text that tests the flags in `entries` over IPv4 and the bits of all flags of `order` over
-- IPv6.
-- Both list parts of the raw filter: `order` all of them, `entries` those that are not dropped.
pub record IsFlagText (C : Pcap) (raw t : Text) : Type 0 where
  pub entries : List Text
  pub order : List Text
  pub text_lem :
      t
      ≡ codes "(tcp[tcpflags]&(tcp-"
        ++ (join entries (codes "|tcp-")
            ++ (codes ")!=0) or (ip6[13+40]&0x" ++ (format_hex (or_all C 0 order) ++ codes "!=0)")))
  pub once : distinct entries ≡ true
  pub entries_exact :
      (f : Text) → contains entries f ≡ (contains (parts raw) f && not (dropped C f))
  pub order_exact : (f : Text) → contains order f ≡ contains (parts raw) f

-- No filter is written exactly if no part of the raw filter stands for a flag.
abbrev pub IsFlagFilter : Pcap → Text → Option Text → Type 0
IsFlagFilter C raw none = (is_unset raw || all (λ f. bits_of C f == 0) (parts raw)) ≡ true
IsFlagFilter C raw (some t) =
    IsFlagText C raw t × ((is_unset raw || all (λ f. bits_of C f == 0) (parts raw)) ≡ false)

write_lem :
    (F : StringFormatter)
    → IsPositional F
    → (flags : List Text) (bits : ℕ)
    → write F flags bits
      ≡ codes "(tcp[tcpflags]&(tcp-"
        ++ (join flags (codes "|tcp-")
            ++ (codes ")!=0) or (ip6[13+40]&0x" ++ (format_hex bits ++ codes "!=0)")))
unfolding write
write_lem F P flags bits =
    P.format-template
      (lit (codes "(tcp[tcpflags]&(")
        ∷ arg 0
        ∷ lit (codes ")!=0) or (")
        ∷ arg 1
        ∷ lit (codes ")")
        ∷ [])
      _ refl
    ∙ rw
        (
          P.format-template (lit (codes "ip6[13+40]&0x") ∷ arg 0 ∷ lit (codes "!=0") ∷ [])
              (format_hex bits ∷ []) refl,
          P.format-template (lit (codes "tcp-") ∷ arg 0 ∷ []) (join flags (codes "|tcp-") ∷ [])
              refl,
        )
        (simp (append-nil, append_assoc))

all_of_contains :
    (p : Text → Bool) (ts : List Text)
    → ((t : Text) → contains ts t ≡ true → p t ≡ true)
    → all p ts ≡ true
unfolding contains
all_of_contains p [] h = refl
all_of_contains p (u ∷ ts) h =
    ground (arith, h u, text_eq_refl u, all_of_contains p ts (λ t m. h t (ground arith)))

exists_of_not_all :
    (p : Text → Bool) (ts : List Text)
    → all p ts ≡ false
    → (t : Text) × (contains ts t ≡ true) × (p t ≡ false)
unfolding contains
exists_of_not_all p [] h = cc
exists_of_not_all p (u ∷ ts) h = elim (Bool-cases (p u)) [
  | inl e ↦ let (t, m, n) = exists_of_not_all p ts (ground arith) in (t, ground arith, n)
  | inr e ↦ (u, ground (arith, text_eq_refl u), e)
]

to_lower-blank : (t : Text) → text_eq (to_lower t) [] ≡ text_eq t []
unfolding to_lower text_eq
to_lower-blank [] = refl
to_lower-blank (c ∷ t) = refl

-- Two lists with the same members pass a test alike.
pub all-of_same :
    (p : Text → Bool) (xs ys : List Text)
    → ((t : Text) → contains xs t ≡ contains ys t)
    → all p xs ≡ all p ys
all-of_same p xs ys e =
    Bool-ext _ _ (λ h. all_of_contains p ys (λ t m. contains-all p xs t h (e t ∙ m)))
      (λ h. all_of_contains p xs (λ t m. contains-all p ys t h (sym (e t) ∙ m)))

module _ (F : StringFormatter) (P : IsPositional F) (S : Mapset) (L : IsMapset S) (C : Pcap)
    (raw : Text) (calls : List Call) where
  abbrev order_of : List Text
  order_of = S.each_order (S.new (parts raw))

  abbrev last : Seen S
  last = each S C order_of (record { set = S.new (parts raw); bits = 0; calls = calls })

  order-contains : (f : Text) → contains order_of f ≡ contains (parts raw) f
  order-contains f = L.contains-each_order (S.new (parts raw)) f ∙ L.contains-new (parts raw) f

  order-is_lowered : all is_lowered order_of ≡ true
  order-is_lowered =
      all-of_same is_lowered order_of (parts raw) order-contains ∙ split-is_lowered raw comma

  contains-last :
      (f : Text) → contains (S.to_slice last.set) f ≡ (contains (parts raw) f && not (dropped C f))
  contains-last f = ground (
    arith,
    each_set C S L order_of (record { set = S.new (parts raw); bits = 0; calls = calls }) f,
    L.contains-new (parts raw) f,
    removed-dropped C order_of f order-is_lowered,
    contains-all is_lowered (parts raw) f (split-is_lowered raw comma),
    order-contains f,
  )

  last_bits : last.bits ≡ or_all C 0 order_of
  last_bits = each_bits C S L order_of _

  no_bits : (last.bits == 0) ≡ all (λ f. bits_of C f == 0) (parts raw)
  no_bits = rw last_bits (
      or_all-eq_zero C order_of 0
      ∙ all-of_same (λ f. bits_of C f == 0) order_of (parts raw) order-contains)

  get_unset : is_unset raw ≡ true → get F S C raw calls ≡ (none, calls)
  unfolding get
  get_unset h = ground arith

  -- A raw filter that is not empty has parts, so the test for none never passes.
  parts_not_blank : is_unset raw ≡ false → only_blank (parts raw) ≡ false
  parts_not_blank h =
      rw (only_blank-split (to_lower raw) comma, to_lower-blank raw)
        (unfold is_unset in ground arith)

  -- A flag that is known stays in the set.
  some_left : is_unset raw ≡ false → (last.bits == 0) ≡ false → S.is_empty last.set ≡ false
  some_left h b =
      let (f, m, k) = exists_of_not_all (λ f. bits_of C f == 0) (parts raw) (sym no_bits ∙ b) in
      ground
        (arith, contains-last f, L.is_empty_lem last.set, contains-eq_nil (S.to_slice last.set) f)

  get_set :
      is_unset raw ≡ false
      → get F S C raw calls ≡ (
        if last.bits == 0 then none else some (write F (S.to_slice last.set) last.bits),
        last.calls,
      )
  unfolding get
  get_set h = ground (arith, parts_not_blank h, some_left h)

  -- `Get` returns no filter exactly if the raw filter is empty, `ALL` or `ANY`, or no part of it
  -- stands for a flag. Any other filter tests each part of the lower-cased raw filter by name over
  -- IPv4, each once, but for the unknown parts that are their own upper case form; and it tests the
  -- bits of all parts, in hexadecimal, over IPv6.
  pub get-IsFlagFilter : IsFlagFilter C raw (get F S C raw calls).0
  get-IsFlagFilter = elim (Bool-cases (is_unset raw)) [
    | inl u ↦ rw (get_unset u) (rw u)
    | inr u ↦ elim (Bool-cases (last.bits == 0)) [
      | inl z ↦ rw (get_set u, z) (ground (arith, no_bits))
      | inr n ↦
          rw (get_set u, n)
            (
              record {
                entries = S.to_slice last.set;
                order = order_of;
                text_lem = rw (← last_bits) (write_lem F P (S.to_slice last.set) last.bits);
                once = L.to_slice-distinct last.set;
                entries_exact = contains-last;
                order_exact = order-contains;
              },
              ground (arith, no_bits),
            )
    ]
  ]
