-- ===== src/Filter/Compat/Frames.antt =====
-- Functions that hand over more calls on the compatibility filters behind those made before.
use cloud_run_tcpdump.Prelude.{
  if◌then◌else◌, Bool-cases, ◌≡◌, sym, ap, ◌∙◌, inl, inr, Bool, List, [], ◌++◌, append_assoc,
  append-nil,
}
use cloud_run_tcpdump.Filter.Compat.{Call}

-- The calls before have no say in the result nor in the calls made, which stand behind them.
abbrev pub Frames {ℓ} : {A : Type ℓ} → (List Call → A × List Call) → Type ℓ
Frames f = (calls : List Call) → f calls ≡ ((f []).0, calls ++ (f []).1)

-- One function behind the other.
abbrev pub bind {ℓ κ} :
    {A : Type ℓ} {B : Type κ}
    → (List Call → A × List Call)
    → (A → List Call → B × List Call)
    → List Call
    → B × List Call
bind f g calls = g (f calls).0 (f calls).1

module _ {ℓ} {A : Type ℓ} where
  pub return-Frames : (a : A) → Frames (λ calls. (a, calls))
  return-Frames a calls = rw (append-nil calls)

  pub if-Frames :
      (b : Bool) (f g : List Call → A × List Call)
      → Frames f
      → Frames g
      → Frames (λ calls. if b then f calls else g calls)
  if-Frames b f g hf hg calls = elim (Bool-cases b) [
    | inl e ↦ rw e (hf calls)
    | inr e ↦ rw e (hg calls)
  ]

  pub bind-Frames {κ} :
      {B : Type κ} (f : List Call → A × List Call) (g : A → List Call → B × List Call)
      → Frames f
      → ((a : A) → Frames (g a))
      → Frames (bind f g)
  bind-Frames {B = B} f g hf hg calls =
      let a = (f []).0 in
      let made = (f []).1 in
      ap (λ (r : A × List Call). g r.0 r.1) (hf calls)
      ∙ hg a (calls ++ made)
      ∙ ap (λ (l : List Call). ((g a []).0, l)) (append_assoc calls made (g a []).1)
      ∙ sym (ap (λ (r : B × List Call). (r.0, calls ++ r.1)) (hg a made))
