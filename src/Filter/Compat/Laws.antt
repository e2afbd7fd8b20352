-- ===== src/Filter/Compat/Laws.antt =====
-- When a raw filter has no part at all.
use cloud_run_tcpdump.Prelude.{
  ◌==◌, Bool-cases, is_nil, ℕ, ◌≡◌, refl, inl, inr, false, List, [], ◌∷◌, arith,
}
use cloud_run_tcpdump.Text.{Text, text_eq, comma, split, push}
use cloud_run_tcpdump.Filter.Compat.{is_unset, only_blank}

pub split-ne-nil : (t : Text) (sep : ℕ) → is_nil (split t sep) ≡ false
unfolding split push
split-ne-nil [] sep = refl
split-ne-nil (c ∷ t) sep = elim (Bool-cases (c == sep)) [
  | inl e ↦ rw e
  | inr e ↦ rw e (push-ne-nil c (split t sep))
]
  where
    push-ne-nil : (c : ℕ) (ps : List Text) → is_nil (push c ps) ≡ false
    push-ne-nil c [] = refl
    push-ne-nil c (p ∷ ps) = refl

only_blank-cons : (ps : List Text) → is_nil ps ≡ false → only_blank ([] ∷ ps) ≡ false
unfolding only_blank
only_blank-cons [] h = cc
only_blank-cons (p ∷ ps) h = refl

only_blank-push : (c : ℕ) (ps : List Text) → only_blank (push c ps) ≡ false
unfolding only_blank push text_eq
only_blank-push c [] = refl
only_blank-push c (p ∷ []) = refl
only_blank-push c (p ∷ q ∷ ps) = refl

-- A text is split into one empty part only if it is empty.
pub only_blank-split : (t : Text) (sep : ℕ) → only_blank (split t sep) ≡ text_eq t []
unfolding split
only_blank-split [] sep = unfold only_blank in refl
only_blank-split (c ∷ t) sep =
    unfold text_eq in
    elim (Bool-cases (c == sep)) [
      | inl e ↦ rw e (only_blank-cons (split t sep) (split-ne-nil t sep))
      | inr e ↦ rw e (only_blank-push c (split t sep))
    ]

-- So the providers' test for no part never passes behind the test for a filter that is unset.
pub only_blank-split_set :
    (raw : Text) → is_unset raw ≡ false → only_blank (split raw comma) ≡ false
unfolding is_unset
only_blank-split_set raw h = ground (arith, only_blank-split raw comma)
