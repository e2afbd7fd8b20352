-- ===== src/Filter/Listing.antt =====
-- BPF text that lists terms of one kind, `host a or host b`.
use cloud_run_tcpdump.Prelude.{
  if◌then◌else◌, Bool-cases, is_nil, ◌≡◌, sym, ap, ◌∙◌, inl, inr, Bool, true, false, Option, none,
  some, List, [], ◌∷◌, ◌++◌, append-nil, arith,
}
use cloud_run_tcpdump.Text.{Text, codes, contains, join}
use cloud_run_tcpdump.Ext.{
  StringFormatter, IsPositional, lit, arg, no_braces, Mapset, IsMapset, distinct,
}
use cloud_run_tcpdump.Ext.Laws.{contains-eq_nil}

-- The text is `prefix a or prefix b or …`, over exactly the wanted entries, each once, and at
-- least one.
pub record IsListing (prefix : Text) (wanted : Text → Bool) (t : Text) : Type 0 where
  pub entries : List Text
  pub text_lem : t ≡ prefix ++ join entries (codes " or " ++ prefix)
  pub some_entry : is_nil entries ≡ false
  pub once : distinct entries ≡ true
  pub exact : (e : Text) → contains entries e ≡ wanted e

-- A filter that is left out lists nothing.
abbrev pub IsFilter : Text → (Text → Bool) → Option Text → Type 0
IsFilter prefix wanted none = (e : Text) → wanted e ≡ false
IsFilter prefix wanted (some t) = IsListing prefix wanted t

module _ (F : StringFormatter) (P : IsPositional F) (S : Mapset) (L : IsMapset S) (prefix : Text)
    (clean : no_braces prefix ≡ true) where
  -- What the providers write for a set that is not empty.
  abbrev pub listing : S.State → Text
  listing set =
      F.format (prefix ++ codes "{0}") (join (S.to_slice set) (codes " or " ++ prefix) ∷ [])

  pub listing_lem :
      (set : S.State) → listing set ≡ prefix ++ join (S.to_slice set) (codes " or " ++ prefix)
  listing_lem set =
      P.format-template (lit prefix ∷ arg 0 ∷ [])
        (join (S.to_slice set) (codes " or " ++ prefix) ∷ []) (ground arith)
      ∙ ap (λ t. prefix ++ t) (append-nil (join (S.to_slice set) (codes " or " ++ prefix)))

  pub listing-IsListing :
      (set : S.State) (wanted : Text → Bool)
      → ((t : Text) → contains (S.to_slice set) t ≡ wanted t)
      → S.is_empty set ≡ false
      → IsListing prefix wanted (listing set)
  listing-IsListing set wanted exact full = record {
    entries = S.to_slice set;
    text_lem = listing_lem set;
    some_entry = sym (L.is_empty_lem set) ∙ full;
    once = L.to_slice-distinct set;
    exact = exact;
  }

  pub listing-IsFilter :
      (set : S.State) (wanted : Text → Bool)
      → ((t : Text) → contains (S.to_slice set) t ≡ wanted t)
      → IsFilter prefix wanted (if S.is_empty set then none else some (listing set))
  listing-IsFilter set wanted exact = elim (Bool-cases (S.is_empty set)) [
    | inl e ↦
        rw e
          (λ t. sym (exact t) ∙ contains-eq_nil (S.to_slice set) t (sym (L.is_empty_lem set) ∙ e))
    | inr e ↦ rw e (listing-IsListing set wanted exact e)
  ]
