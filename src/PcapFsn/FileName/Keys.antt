-- ===== src/PcapFsn/FileName/Keys.antt =====
-- Which files share a key.
use cloud_run_tcpdump.Prelude.{
  ◌==◌, all, ℕ, ◌≡◌, refl, sym, ap, ◌∙◌, Bool, true, not, ◌&&◌, [], ◌∷◌, ◌++◌, arith,
}
use cloud_run_tcpdump.Text.{Text, split, join, push}
use cloud_run_tcpdump.PcapFsn.FileName.{Match, key_of}

abbrev slash : ℕ
slash = b'/'

-- No slash in the text.
abbrev pub is_flat : Text → Bool
is_flat t = all (λ c. not (c == slash)) t

split-flat : (t : Text) → is_flat t ≡ true → split t slash ≡ t ∷ []
unfolding split push
split-flat [] h = refl
split-flat (c ∷ t) h = ground (arith, split-flat t)

split-joined :
    (t rest : Text) → is_flat t ≡ true → split (t ++ (slash ∷ rest)) slash ≡ t ∷ split rest slash
unfolding split push
split-joined [] rest h = refl
split-joined (c ∷ t) rest h = ground (arith, split-joined t rest)

abbrev pub is_flat_match : Match → Bool
is_flat_match m = is_flat m.index && is_flat m.iface && is_flat m.ext

split-key_of :
    (m : Match) → is_flat_match m ≡ true → split (key_of m) slash ≡ m.index ∷ m.iface ∷ m.ext ∷ []
unfolding key_of join
split-key_of m h =
    rw
      (
        split-joined m.index (m.iface ++ (slash ∷ m.ext)) (ground arith),
        split-joined m.iface m.ext (ground arith),
        split-flat m.ext (ground arith),
      )
      refl

-- Two files have the same key only if they have the same interface, by number and name, and the
-- same extension, where none of these has a slash: captures of different interfaces or formats
-- never rotate one another.
pub key_of_injective :
    (m n : Match) → is_flat_match m ≡ true → is_flat_match n ≡ true → key_of m ≡ key_of n → m ≡ n
key_of_injective m n h k e =
    let same : m.index ∷ m.iface ∷ m.ext ∷ [] ≡ n.index ∷ n.iface ∷ n.ext ∷ [] =
      sym (split-key_of m h) ∙ ap (λ t. split t slash) e ∙ split-key_of n k in
    cc
