-- ===== src/Ext/Models.antt =====
-- Instances of the outside parts, for runs and for the theorems at concrete inputs.
use cloud_run_tcpdump.Prelude.{
  ◌||◌, ◌==◌, if◌then◌else◌, length, is_nil, ℕ, ◌+◌, ◌-◌, ◌≡◌, refl, ap, ◌∙◌, ◌≢◌, true, not, ◌&&◌,
  List, [], ◌∷◌, ◌++◌, arith,
}
use cloud_run_tcpdump.Text.{Text, text_eq, contains}
use cloud_run_tcpdump.Text.Laws.{text_eq_iff, contains-append}
use cloud_run_tcpdump.Ext.{
  StringFormatter, IsPositional, Mapset, IsMapset, Piece, lit, arg, nth, template, fill, plain,
  no_braces, distinct,
}

unfoldable pub substitute : Text → List Text → Text
substitute [] args = []
substitute (a ∷ []) args = a ∷ []
substitute (a ∷ b ∷ []) args = a ∷ b ∷ []
substitute (a ∷ b ∷ c ∷ s) args =
    let copied = a ∷ substitute (b ∷ c ∷ s) args in
    let filled = nth args (b - b'0') ++ substitute s args in
    if a == b'{' && c == b'}' then filled else copied

abbrev pub formatter : StringFormatter
formatter = record { format = substitute }

substitute-cons :
    (a : ℕ) (s : Text) (args : List Text)
    → a ≢ b'{'
    → substitute (a ∷ s) args ≡ a ∷ substitute s args
unfolding substitute
substitute-cons a [] args h = refl
substitute-cons a (b ∷ []) args h = refl
substitute-cons a (b ∷ c ∷ s) args h = ground arith

substitute-append :
    (t s : Text) (args : List Text)
    → no_braces t ≡ true
    → substitute (t ++ s) args ≡ t ++ substitute s args
substitute-append [] s args h = refl
substitute-append (a ∷ t) s args h =
    ground (arith, substitute-cons a (t ++ s) args, substitute-append t s args)

substitute_arg :
    (i : ℕ) (s : Text) (args : List Text)
    → substitute (b'{' ∷ (b'0' + i) ∷ b'}' ∷ s) args ≡ nth args i ++ substitute s args
unfolding substitute
substitute_arg i s args = let e : b'0' + i - b'0' ≡ i = omega arith in rw e

substitute-template :
    (n : ℕ) (ps : List Piece) (args : List Text)
    → plain n ps ≡ true
    → substitute (template ps) args ≡ fill ps args
unfolding substitute
substitute-template n [] args h = refl
substitute-template n (lit t ∷ ps) args h =
    ground (arith, substitute-append t (template ps) args, substitute-template n ps args)
substitute-template n (arg i ∷ ps) args h =
    substitute_arg i (template ps) args
    ∙ ap (λ s. nth args i ++ s) (substitute-template n ps args (ground arith))

pub formatter-IsPositional : IsPositional formatter
formatter-IsPositional = record {
  format-template = λ ps args h. substitute-template (length args) ps args h;
}

-- A set as the list of its additions, listed with each text once.
unfoldable pub dedup : List Text → List Text
dedup [] = []
dedup (t ∷ ts) = let rest = dedup ts in if contains ts t then rest else t ∷ rest

unfoldable pub erase : Text → List Text → List Text
erase t [] = []
erase t (u ∷ us) = let rest = erase t us in if text_eq t u then rest else u ∷ rest

contains-dedup : (ts : List Text) (t : Text) → contains (dedup ts) t ≡ contains ts t
unfolding dedup contains
contains-dedup [] t = refl
contains-dedup (u ∷ ts) t = ground (arith, contains-dedup ts t, text_eq_iff u t)

dedup-distinct : (ts : List Text) → distinct (dedup ts) ≡ true
unfolding dedup distinct contains
dedup-distinct [] = refl
dedup-distinct (u ∷ ts) = ground (arith, dedup-distinct ts, contains-dedup ts u)

contains-erase :
    (u : Text) (ts : List Text) (t : Text)
    → contains (erase u ts) t ≡ (not (text_eq u t) && contains ts t)
unfolding erase contains
contains-erase u [] t = ground arith
contains-erase u (v ∷ ts) t =
    ground (arith, contains-erase u ts t, text_eq_iff u v, text_eq_iff v t, text_eq_iff u t)

add_law :
    (u : Text) (s : List Text) (t : Text)
    → contains (dedup (u ∷ s)) t ≡ (text_eq u t || contains (dedup s) t)
unfolding contains
add_law u s t = ground (arith, contains-dedup (u ∷ s) t, contains-dedup s t)

append_law :
    (us s : List Text) (t : Text)
    → contains (dedup (us ++ s)) t ≡ (contains us t || contains (dedup s) t)
append_law us s t =
    ground (arith, contains-dedup (us ++ s) t, contains-append us s t, contains-dedup s t)

remove_law :
    (u : Text) (s : List Text) (t : Text)
    → contains (dedup (erase u s)) t ≡ (not (text_eq u t) && contains (dedup s) t)
remove_law u s t =
    ground (arith, contains-dedup (erase u s) t, contains-erase u s t, contains-dedup s t)

abbrev pub mapset : Mapset
mapset = record {
  State = List Text;
  new = λ ts. ts;
  add = λ t ts. t ∷ ts;
  append = λ us ts. us ++ ts;
  remove = erase;
  is_empty = λ ts. is_nil (dedup ts);
  to_slice = dedup;
  each_order = dedup;
}

pub mapset-IsMapset : IsMapset mapset
mapset-IsMapset = record {
  contains-new = contains-dedup;
  contains-add = λ u s t. add_law u s t;
  contains-append = λ us s t. append_law us s t;
  contains-remove = λ u s t. remove_law u s t;
  is_empty_lem = λ s. refl;
  to_slice-distinct = dedup-distinct;
  contains-each_order = λ s t. refl;
}
