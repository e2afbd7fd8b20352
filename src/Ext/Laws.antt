-- ===== src/Ext/Laws.antt =====
-- Consequences of what is assumed of the outside parts.
use cloud_run_tcpdump.Prelude.{
  is_nil, ◌≡◌, refl, ◌∙◌, true, false, List, [], ◌∷◌, append-nil, arith,
}
use cloud_run_tcpdump.Text.{Text, codes, contains}
use cloud_run_tcpdump.Text.Laws.{text_eq_refl}
use cloud_run_tcpdump.Ext.{StringFormatter, IsPositional, arg}

-- A list with no member is empty.
pub is_nil-of_contains : (ts : List Text) → ((t : Text) → contains ts t ≡ false) → is_nil ts ≡ true
unfolding contains
is_nil-of_contains [] h = refl
is_nil-of_contains (t ∷ ts) h = ground (arith, h t, text_eq_refl t)

pub contains-eq_nil : (ts : List Text) (t : Text) → is_nil ts ≡ true → contains ts t ≡ false
unfolding contains
contains-eq_nil [] t h = refl
contains-eq_nil (u ∷ ts) t h = ground arith

pub format_one :
    (F : StringFormatter) (P : IsPositional F) (t : Text) → F.format (codes "{0}") (t ∷ []) ≡ t
format_one F P t = P.format-template (arg 0 ∷ []) (t ∷ []) refl ∙ append-nil t
