-- ===== src/Filter/Protos.antt =====
-- The loop over protocol names that `L3ProtoFilterProvider.Get` and `L4ProtoFilterProvider.Get`
-- share, over the `switch` of each.
pub mod Laws
pub mod Aliases
use cloud_run_tcpdump.Prelude.{Bool, List, [], ◌∷◌, ◌++◌, Option, none, some, if◌then◌else◌}
use cloud_run_tcpdump.Text.{Text, codes, comma, split, join}
use cloud_run_tcpdump.Ext.{StringFormatter, Mapset}
use cloud_run_tcpdump.Filter.Compat.{Call, only_blank}

-- A case of the `switch`: the keyword that is added to the set, and the calls that are made.
abbrev pub Case : Type 0
Case = record { keyword : Text; calls : List Call }

-- The body of one case; a name that no case lists is passed over.
unfoldable pub apply : (S : Mapset) → Option Case → S.State → List Call → S.State × List Call
apply S none set calls = (set, calls)
apply S (some c) set calls = (S.add c.keyword set, calls ++ c.calls)

module _ (S : Mapset) (switch : Text → Option Case) where
  unfoldable pub collect : List Text → S.State → List Call → S.State × List Call
  collect [] set calls = (set, calls)
  collect (proto ∷ protos) set calls =
      let (set', calls') = apply S (switch proto) set calls in collect protos set' calls'

-- `Get` behind its first test, which is `is_default`; `default` is the filter that stands for all.
module _ (F : StringFormatter) (S : Mapset) (switch : Text → Option Case) (default : Text) where
  unfoldable pub get : Bool → Text → List Call → Option Text × List Call
  get is_default raw calls =
      if is_default
      then (some default, calls)
      else if only_blank (split raw comma)
      then (some default, calls)
      else let (set, calls') = collect S switch (split raw comma) (S.new []) calls in
        if S.is_empty set
        then (some default, calls')
        else (some (F.format (codes "{0}") (join (S.to_slice set) (codes " or ") ∷ [])), calls')
