-- ===== src/Filter/Ip/Covered.antt =====
-- The addresses that the networks leave.
use cloud_run_tcpdump.Prelude.{
  ◌||◌, Option, none, some, any, ◌≡◌, Bool, not, ◌&&◌, List, [], ◌∷◌, arith,
}
use cloud_run_tcpdump.Text.{Text, text_eq, contains}
use cloud_run_tcpdump.Text.Laws.{text_eq_iff}
use cloud_run_tcpdump.Ext.{Mapset, IsMapset, Netip}
use cloud_run_tcpdump.Filter.Compat.{Call}
use cloud_run_tcpdump.Ext.Laws.{contains-eq_nil}
use cloud_run_tcpdump.Filter.Dns.Found
use cloud_run_tcpdump.Filter.Ip.{add_found, covers, visit, each, drop_covered}

module _ (S : Mapset) (L : IsMapset S) (N : Netip) where
  abbrev pub has : S.State × List Call → Text → Bool
  has st ip = contains (S.to_slice st.0) ip

  -- The addresses of the hosts come in.
  pub has-add_found :
      (o : Option S.State) (set : S.State) (ip : Text)
      → contains (S.to_slice (add_found S N o set)) ip
        ≡ (contains (S.to_slice set) ip || Found.found_has N S L o ip)
  unfolding add_found
  has-add_found none set ip = ground arith
  has-add_found (some found) set ip = ground (
    arith,
    L.contains-append (S.to_slice found) set ip,
    L.is_empty_lem found,
    contains-eq_nil (S.to_slice found) ip,
  )

  has-visit :
      (net ip : Text) (set : S.State) (calls : List Call) (t : Text)
      → has (visit S N net ip (set, calls)) t
        ≡ (contains (S.to_slice set) t && not (text_eq ip t && covers N net t))
  unfolding visit
  has-visit net ip set calls t = ground (arith, L.contains-remove ip set t, text_eq_iff ip t)

  pub has-each :
      (net : Text) (ips : List Text) (st : S.State × List Call) (t : Text)
      → has (each S N net ips st) t ≡ (has st t && not (contains ips t && covers N net t))
  unfolding each contains
  has-each net [] st t = ground arith
  has-each net (ip ∷ ips) (set, calls) t =
      ground
        (arith, has-each net ips (visit S N net ip (set, calls)) t, has-visit net ip set calls t)

  -- The loop over the networks keeps exactly the addresses that no network contains.
  pub has-drop_covered :
      (nets : List Text) (st : S.State × List Call) (t : Text)
      → has (drop_covered S N nets st) t ≡ (has st t && not (any (λ net. covers N net t) nets))
  unfolding drop_covered
  has-drop_covered [] st t = ground arith
  has-drop_covered (net ∷ nets) st t = ground (
    arith,
    has-drop_covered nets (each S N net (S.each_order st.0) st) t,
    has-each net (S.each_order st.0) st t,
    L.contains-each_order st.0 t,
  )
