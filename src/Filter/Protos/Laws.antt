-- ===== src/Filter/Protos/Laws.antt =====
-- What the loop over protocol names puts into the set, what it calls, and the filter that `Get`
-- writes from the set.
use cloud_run_tcpdump.Prelude.{
  if◌then◌else◌, Bool-cases, any, ◌≡◌, refl, sym, ◌∙◌, inl, inr, Bool, true, false, not, ◌||◌,
  Option, none, some, List, [], ◌∷◌, ◌++◌, append_assoc, append-nil, arith,
}
use cloud_run_tcpdump.Text.{Text, codes, text_eq, contains, comma, split, join}
use cloud_run_tcpdump.Text.Laws.{text_eq_refl, text_eq_iff}
use cloud_run_tcpdump.Ext.{StringFormatter, IsPositional, Mapset, IsMapset, distinct}
use cloud_run_tcpdump.Ext.Laws.{contains-eq_nil, is_nil-of_contains, format_one}
use cloud_run_tcpdump.Filter.Compat.{Call, only_blank}
use cloud_run_tcpdump.Filter.Protos.{Case, apply, collect, get}

abbrev pub selects : Text → Option Case → Bool
selects k none = false
selects k (some c) = text_eq c.keyword k

abbrev pub is_case : Option Case → Bool
is_case none = false
is_case (some c) = true

abbrev pub calls_of : Option Case → List Call
calls_of none = []
calls_of (some c) = c.calls

is_case-selects : (o : Option Case) → is_case o ≡ true → (k : Text) × (selects k o ≡ true)
is_case-selects none h = cc
is_case-selects (some c) h = (c.keyword, text_eq_refl c.keyword)

selects-is_case : (k : Text) (o : Option Case) → is_case o ≡ false → selects k o ≡ false
selects-is_case k none h = refl
selects-is_case k (some c) h = cc

module _ (switch : Text → Option Case) where
  -- The name selects this keyword, some keyword.
  abbrev pub names : Text → Text → Bool
  names k proto = selects k (switch proto)

  abbrev pub known : Text → Bool
  known proto = is_case (switch proto)

  -- The calls that the names make, in order.
  abbrev pub made : List Text → List Call
  made [] = []
  made (p ∷ ps) = calls_of (switch p) ++ made ps

  any-names_of_unknown :
      (k : Text) (ps : List Text) → any known ps ≡ false → any (names k) ps ≡ false
  any-names_of_unknown k [] h = refl
  any-names_of_unknown k (p ∷ ps) h =
      ground (arith, any-names_of_unknown k ps, selects-is_case k (switch p))

  any-names_of_known :
      (ps : List Text) → any known ps ≡ true → (k : Text) × (any (names k) ps ≡ true)
  any-names_of_known [] h = cc
  any-names_of_known (p ∷ ps) h = elim (Bool-cases (known p)) [
    | inl e ↦ let (k, s) = is_case-selects (switch p) e in (k, ground arith)
    | inr e ↦ let (k, s) = any-names_of_known ps (ground arith) in (k, ground arith)
  ]

-- The filter is `or` between these keywords, each written once.
pub record IsDisjunction (wanted : Text → Bool) (filter : Option Text) : Type 0 where
  pub keywords : List Text
  pub filter_lem : filter ≡ some (join keywords (codes " or "))
  pub once : distinct keywords ≡ true
  pub exact : (k : Text) → contains keywords k ≡ wanted k

module _ (S : Mapset) (L : IsMapset S) where
  contains-apply :
      (o : Option Case) (set : S.State) (calls : List Call) (k : Text)
      → contains (S.to_slice (apply S o set calls).0) k
        ≡ (selects k o || contains (S.to_slice set) k)
  unfolding apply
  contains-apply none set calls k = refl
  contains-apply (some c) set calls k = L.contains-add c.keyword set k

  apply_calls :
      (o : Option Case) (set : S.State) (calls : List Call)
      → (apply S o set calls).1 ≡ calls ++ calls_of o
  unfolding apply
  apply_calls none set calls = sym (append-nil calls)
  apply_calls (some c) set calls = refl

module _ (S : Mapset) (L : IsMapset S) (switch : Text → Option Case) where
  pub contains-collect :
      (ps : List Text) (set : S.State) (calls : List Call) (k : Text)
      → contains (S.to_slice (collect S switch ps set calls).0) k
        ≡ (any (names switch k) ps || contains (S.to_slice set) k)
  unfolding collect
  contains-collect [] set calls k = refl
  contains-collect (p ∷ ps) set calls k =
      let st = apply S (switch p) set calls in
      ground (arith, contains-collect ps st.0 st.1 k, contains-apply S L (switch p) set calls k)

  pub collect_calls :
      (ps : List Text) (set : S.State) (calls : List Call)
      → (collect S switch ps set calls).1 ≡ calls ++ made switch ps
  unfolding collect
  collect_calls [] set calls = sym (append-nil calls)
  collect_calls (p ∷ ps) set calls =
      let st = apply S (switch p) set calls in
      cc (
        collect_calls ps st.0 st.1,
        apply_calls S L (switch p) set calls,
        append_assoc calls (calls_of (switch p)) (made switch ps),
      )

  contains-collect_new :
      (ps : List Text) (calls : List Call) (k : Text)
      → contains (S.to_slice (collect S switch ps (S.new []) calls).0) k ≡ any (names switch k) ps
  unfolding contains
  contains-collect_new ps calls k =
      ground (arith, contains-collect ps (S.new []) calls k, L.contains-new [] k)

  -- The set is empty exactly if no name is known.
  is_empty-collect :
      (ps : List Text) (calls : List Call)
      → S.is_empty (collect S switch ps (S.new []) calls).0 ≡ not (any (known switch) ps)
  is_empty-collect ps calls =
      let set = (collect S switch ps (S.new []) calls).0 in
      elim (Bool-cases (any (known switch) ps)) [
        | inl e ↦
            let (k, s) = any-names_of_known switch ps e in
            ground (
              arith,
              L.is_empty_lem set,
              contains-eq_nil (S.to_slice set) k,
              contains-collect_new ps calls k,
            )
        | inr e ↦ rw e (
            L.is_empty_lem set
            ∙ is_nil-of_contains (S.to_slice set)
                (λ t. contains-collect_new ps calls t ∙ any-names_of_unknown switch t ps e))
      ]

module _ (F : StringFormatter) (P : IsPositional F) (S : Mapset) (L : IsMapset S)
    (switch : Text → Option Case) (blank : switch [] ≡ none) (defaults : List Text)
    (once : distinct defaults ≡ true) where
  -- The keywords that a raw filter asks for.
  abbrev pub wanted : Bool → Text → Text → Bool
  wanted is_default raw k =
      if is_default || not (any (known switch) (split raw comma))
      then contains defaults k
      else any (names switch k) (split raw comma)

  known_blank : (ps : List Text) → only_blank ps ≡ true → any (known switch) ps ≡ false
  unfolding only_blank
  known_blank [] h = refl
  known_blank (p ∷ []) h = ground (arith, text_eq_iff p [], blank)
  known_blank (p ∷ q ∷ ps) h = cc

  made_blank : (ps : List Text) → only_blank ps ≡ true → made switch ps ≡ []
  unfolding only_blank
  made_blank [] h = refl
  made_blank (p ∷ []) h = ground (arith, text_eq_iff p [], blank)
  made_blank (p ∷ q ∷ ps) h = cc

  -- No name is known, or all are meant.
  abbrev all_meant : Bool → Text → Bool
  all_meant is_default raw = is_default || not (any (known switch) (split raw comma))

  module _ (is_default : Bool) (raw : Text) (calls : List Call) where
    abbrev found : S.State
    found = (collect S switch (split raw comma) (S.new []) calls).0

    get_all :
        all_meant is_default raw ≡ true
        → (get F S switch (join defaults (codes " or ")) is_default raw calls).0
          ≡ some (join defaults (codes " or "))
    unfolding get
    get_all h =
        ground (
          arith,
          is_empty-collect S L switch (split raw comma) calls,
          known_blank (split raw comma),
        )

    get_some :
        all_meant is_default raw ≡ false
        → (get F S switch (join defaults (codes " or ")) is_default raw calls).0
          ≡ some (join (S.to_slice found) (codes " or "))
    unfolding get
    get_some h = ground (
      arith,
      is_empty-collect S L switch (split raw comma) calls,
      known_blank (split raw comma),
      format_one F P (join (S.to_slice found) (codes " or ")),
    )

    pub get-IsDisjunction :
        IsDisjunction
          (wanted is_default raw)
          (get F S switch (join defaults (codes " or ")) is_default raw calls).0
    get-IsDisjunction = elim (Bool-cases (all_meant is_default raw)) [
      | inl e ↦ record {
        keywords = defaults;
        filter_lem = get_all e;
        once = once;
        exact = λ k. rw e;
      }
      | inr e ↦ record {
        keywords = S.to_slice found;
        filter_lem = get_some e;
        once = L.to_slice-distinct found;
        exact = λ k. rw e (contains-collect_new S L switch (split raw comma) calls k);
      }
    ]

    -- Nothing is called for a default filter that the first test picks.
    pub get_calls :
        (get F S switch (join defaults (codes " or ")) is_default raw calls).1
        ≡ calls ++ (if is_default then [] else made switch (split raw comma))
    unfolding get
    get_calls = ground (
      arith,
      append-nil calls,
      made_blank (split raw comma),
      collect_calls S L switch (split raw comma) (S.new []) calls,
    )

pub IsDisjunction-of_eq :
    {p q : Text → Bool} {filter : Option Text}
    → IsDisjunction p filter
    → ((k : Text) → p k ≡ q k)
    → IsDisjunction q filter
IsDisjunction-of_eq d e = record {
  keywords = d.keywords;
  filter_lem = d.filter_lem;
  once = d.once;
  exact = λ k. d.exact k ∙ e k;
}
