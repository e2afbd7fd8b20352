-- ===== src/Text/Laws.antt =====
-- Laws of the text functions.
use cloud_run_tcpdump.Text.{range_error}
use cloud_run_tcpdump.Prelude.{
  all, Bool, ℕ, ◌≤◌, ◌+◌, ◌*◌, ◌-◌, ◌≡◌, refl, ◌↔◌, true, ◌||◌, List, [], ◌∷◌, ◌++◌, arith,
  Bool-ext,
}
use cloud_run_tcpdump.Text.{Text, text_eq, contains, lower, to_lower, value, parse_loop, parse_uint}

text_eq_sound : (s t : Text) → text_eq s t ≡ true → s ≡ t
unfolding text_eq
text_eq_sound [] [] h = refl
text_eq_sound [] (d ∷ t) h = ground arith
text_eq_sound (c ∷ s) [] h = ground arith
text_eq_sound (c ∷ s) (d ∷ t) h = ground (arith, text_eq_sound s t)

pub text_eq_refl : (s : Text) → text_eq s s ≡ true
unfolding text_eq
text_eq_refl [] = refl
text_eq_refl (c ∷ s) = ground (arith, text_eq_refl s)

text_eq_complete : (s t : Text) → s ≡ t → text_eq s t ≡ true
text_eq_complete s t e = ground (arith, e, text_eq_refl s)

pub text_eq_iff : (s t : Text) → (text_eq s t ≡ true) ↔ (s ≡ t)
text_eq_iff s t = (text_eq_sound s t, text_eq_complete s t)

pub text_eq_comm : (s t : Text) → text_eq s t ≡ text_eq t s
text_eq_comm s t =
    Bool-ext _ _ (λ h. ground (arith, text_eq_iff s t, text_eq_iff t s))
      (λ h. ground (arith, text_eq_iff s t, text_eq_iff t s))

pub contains-append :
    (xs ys : List Text) (t : Text) → contains (xs ++ ys) t ≡ (contains xs t || contains ys t)
unfolding contains
contains-append [] ys t = refl
contains-append (x ∷ xs) ys t = ground (arith, contains-append xs ys t)

-- A test that every entry passes is passed by each text in the list.
pub contains-all :
    (p : Text → Bool) (ts : List Text) (t : Text)
    → all p ts ≡ true
    → contains ts t ≡ true
    → p t ≡ true
unfolding contains
contains-all p [] t h m = cc
contains-all p (u ∷ ts) t h m = ground (arith, contains-all p ts t, text_eq_iff u t)

-- Lower case text has no capital, so folding it again changes nothing.
pub lower_idem : (c : ℕ) → lower (lower c) ≡ lower c
unfolding lower
lower_idem c = ground arith

pub to_lower_idem : (s : Text) → to_lower (to_lower s) ≡ to_lower s
unfolding to_lower
to_lower_idem [] = refl
to_lower_idem (c ∷ s) = ground (arith, lower_idem c, to_lower_idem s)

parse_loop-le : (max : ℕ) (s : Text) (n : ℕ) → n ≤ max → value (parse_loop max s n) ≤ max
unfolding parse_loop
parse_loop-le max [] n h = h
parse_loop-le max (c ∷ s) n h = ground (arith, parse_loop-le max s (n * 10 + (c - b'0')))

-- The value beside an error is in range too.
pub parse_uint-le : (max : ℕ) (s : Text) → value (parse_uint max s) ≤ max
unfolding parse_uint
parse_uint-le max [] = omega arith
parse_uint-le max (c ∷ s) = parse_loop-le max (c ∷ s) 0 (omega arith)

parse_loop-range : (max : ℕ) (s : Text) (n m : ℕ) → parse_loop max s n ≡ range_error m → m ≡ max
unfolding parse_loop
parse_loop-range max [] n m h = cc
parse_loop-range max (c ∷ s) n m h = ground (arith, parse_loop-range max s (n * 10 + (c - b'0')) m)

-- The value beside a range error is the greatest one.
pub parse_uint-range : (max : ℕ) (s : Text) (m : ℕ) → parse_uint max s ≡ range_error m → m ≡ max
unfolding parse_uint
parse_uint-range max [] m h = cc
parse_uint-range max (c ∷ s) m h = parse_loop-range max (c ∷ s) 0 m h
