-- ===== src/Filter/TcpFlags/Kept.antt =====
-- Which flags the filter names, and which bits it tests.
-- Lower case text, and every part of it.
use cloud_run_tcpdump.Prelude.{
  ◌==◌, if◌then◌else◌, Bool-cases, any, all, ℕ, ◌≡◌, refl, sym, ◌∙◌, inl, inr, Bool, true, not,
  ◌&&◌, List, [], ◌∷◌, ◌++◌, map, append_assoc, append-nil, arith,
}
use cloud_run_tcpdump.Text.{Text, text_eq, contains, to_lower, to_upper, split, lower, upper, push}
use cloud_run_tcpdump.Text.Laws.{text_eq_refl, text_eq_iff, lower_idem}
use cloud_run_tcpdump.Ext.{Mapset, IsMapset, Pcap}
use cloud_run_tcpdump.Filter.Compat.{add_tcp_flags}
use Prim.Native.Nat.{bit_or}
use cloud_run_tcpdump.Filter.TcpFlags.Bits.{bit_or_pos}
use cloud_run_tcpdump.Filter.TcpFlags.{Seen, visit, each}

abbrev pub is_lowered : Text → Bool
is_lowered t = text_eq (to_lower t) t

push-is_lowered :
    (c : ℕ) (ps : List Text)
    → lower c ≡ c
    → all is_lowered ps ≡ true
    → all is_lowered (push c ps) ≡ true
unfolding push to_lower text_eq
push-is_lowered c [] e h = ground arith
push-is_lowered c (p ∷ ps) e h = ground arith

pub split-is_lowered : (t : Text) (sep : ℕ) → all is_lowered (split (to_lower t) sep) ≡ true
unfolding split to_lower
split-is_lowered [] sep = unfold text_eq in refl
split-is_lowered (c ∷ t) sep = ground (
  arith,
  push-is_lowered (lower c) (split (to_lower t) sep),
  split-is_lowered t sep,
  lower_idem c,
  text_eq_refl [],
)

-- Upper case text lowers to what the text lowers to.
lower-upper : (c : ℕ) → lower (upper c) ≡ lower c
unfolding lower upper
lower-upper c = ground arith

to_lower-to_upper : (t : Text) → to_lower (to_upper t) ≡ to_lower t
unfolding to_lower to_upper
to_lower-to_upper [] = refl
to_lower-to_upper (c ∷ t) = cc (lower-upper c, to_lower-to_upper t)

-- Among lower case texts, only the flag itself can be its own upper case form.
upper-eq_of_lowered :
    (f t : Text) → is_lowered f ≡ true → is_lowered t ≡ true → to_upper f ≡ t → f ≡ t
upper-eq_of_lowered f t hf ht e =
    cc ((text_eq_iff (to_lower f) f).0 hf, (text_eq_iff (to_lower t) t).0 ht, to_lower-to_upper f)

module _ (C : Pcap) where
  abbrev pub bits_of : Text → ℕ
  bits_of flag = C.tcp_flag_to_uint8 (to_upper flag)

  -- The bits of all flags of a list together.
  unfoldable pub or_all : ℕ → List Text → ℕ
  or_all bits [] = bits
  or_all bits (f ∷ fs) = or_all (if bits_of f == 0 then bits else bit_or bits (bits_of f)) fs

  pub or_all-eq_zero :
      (fs : List Text) (bits : ℕ)
      → (or_all bits fs == 0) ≡ (bits == 0 && all (λ f. bits_of f == 0) fs)
  unfolding or_all
  or_all-eq_zero [] bits = ground arith
  or_all-eq_zero (f ∷ fs) bits = ground (
    arith,
    or_all-eq_zero fs (if bits_of f == 0 then bits else bit_or bits (bits_of f)),
    bit_or_pos bits (bits_of f),
  )

  -- The flag is unknown, and its upper case form is itself: only then does a round remove it.
  abbrev pub dropped : Text → Bool
  dropped f = bits_of f == 0 && text_eq (to_upper f) f

  abbrev pub removed : List Text → Text → Bool
  removed fs t = any (λ f. bits_of f == 0 && text_eq (to_upper f) t) fs

  pub removed-dropped :
      (fs : List Text) (t : Text)
      → all is_lowered fs ≡ true
      → is_lowered t ≡ true
      → removed fs t ≡ (contains fs t && dropped t)
  unfolding contains
  removed-dropped [] t hs h = refl
  removed-dropped (f ∷ fs) t hs h = ground (
    arith,
    removed-dropped fs t,
    upper-eq_of_lowered f t,
    text_eq_iff (to_upper f) t,
    text_eq_iff f t,
  )

  -- The names for which `AddTCPFlags` is called.
  pub named : List Text → List Text
  named [] = []
  named (f ∷ fs) = let rest = named fs in if bits_of f == 0 then rest else to_upper f ∷ rest

  module _ (S : Mapset) (L : IsMapset S) where
    visit_set :
        (f : Text) (st : Seen S) (t : Text)
        → contains (S.to_slice (visit S C f st).set) t
          ≡ (contains (S.to_slice st.set) t && not (bits_of f == 0 && text_eq (to_upper f) t))
    unfolding visit
    visit_set f st t = elim (Bool-cases (bits_of f == 0)) [
      | inl e ↦ rw (e, visit) (ground (arith, L.contains-remove (to_upper f) st.set t))
      | inr e ↦ rw (e, visit) (ground arith)
    ]

    visit_bits :
        (f : Text) (st : Seen S)
        → (visit S C f st).bits ≡ (if bits_of f == 0 then st.bits else bit_or st.bits (bits_of f))
    unfolding visit
    visit_bits f st = ground arith

    visit_calls :
        (f : Text) (st : Seen S)
        → (visit S C f st).calls
          ≡ st.calls ++ (if bits_of f == 0 then [] else add_tcp_flags (to_upper f) ∷ [])
    unfolding visit
    visit_calls f st = ground (arith, append-nil st.calls)

    pub each_set :
        (fs : List Text) (st : Seen S) (t : Text)
        → contains (S.to_slice (each S C fs st).set) t
          ≡ (contains (S.to_slice st.set) t && not (removed fs t))
    unfolding each
    each_set [] st t = ground arith
    each_set (f ∷ fs) st t = ground (arith, each_set fs (visit S C f st) t, visit_set f st t)

    pub each_bits : (fs : List Text) (st : Seen S) → (each S C fs st).bits ≡ or_all st.bits fs
    unfolding each or_all
    each_bits [] st = refl
    each_bits (f ∷ fs) st = each_bits fs (visit S C f st) ∙ rw (visit_bits f st)

    pub each_calls :
        (fs : List Text) (st : Seen S)
        → (each S C fs st).calls ≡ st.calls ++ map add_tcp_flags (named fs)
    unfolding each named
    each_calls [] st = sym (append-nil st.calls)
    each_calls (f ∷ fs) st = elim (Bool-cases (bits_of f == 0)) [
      | inl e ↦ each_calls fs (visit S C f st) ∙ rw (visit_calls f st, e) (rw (append-nil st.calls))
      | inr e ↦
          each_calls fs (visit S C f st)
          ∙ rw (visit_calls f st, e)
              (append_assoc st.calls (add_tcp_flags (to_upper f) ∷ [])
                (map add_tcp_flags (named fs)))
    ]
