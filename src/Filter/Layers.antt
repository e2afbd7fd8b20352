-- ===== src/Filter/Layers.antt =====
-- The filters of the network layer and of the transport layer, l3_proto_filter_provider.go and
-- l4_proto_filter_provider.go: the filter text and the calls on the compatibility filters.
use cloud_run_tcpdump.Prelude.{if◌then◌else◌, ◌≡◌, ◌||◌, List, [], ◌++◌}
use cloud_run_tcpdump.Text.{Text, comma, split, equal_fold}
use cloud_run_tcpdump.Ext.{StringFormatter, IsPositional, Mapset, IsMapset}
use cloud_run_tcpdump.Filter.Compat.{Call, is_unset}
use cloud_run_tcpdump.Filter.Protos.Laws.{IsDisjunction}
use cloud_run_tcpdump.Filter.Protos.Aliases.{listed_calls}
use cloud_run_tcpdump.Filter.L3Proto
use cloud_run_tcpdump.Filter.L3Proto.Keywords as L3Keywords
use cloud_run_tcpdump.Filter.L4Proto
use cloud_run_tcpdump.Filter.L4Proto.Keywords as L4Keywords

module _ (F : StringFormatter) (P : IsPositional F) (S : Mapset) (L : IsMapset S) (raw : Text)
    (calls : List Call) where
  -- The filter of each layer is `or` between exactly the keywords that the raw filter asks for, each
  -- once. Behind the calls made before, there is one call for each name of an IP protocol, or of a
  -- protocol of the transport layer, in the list, in its order, and none where the raw filter stands for
  -- the default filter as a whole.
  pub get-asked :
      (IsDisjunction (L3Keywords.asked raw) (L3Proto.get F S raw calls).0
        × ((L3Proto.get F S raw calls).1
            ≡ calls
              ++ (if is_unset raw || equal_fold raw L3Proto.default_filter
                  then []
                  else listed_calls L3Keywords.table (split raw comma))))
      × (IsDisjunction (L4Keywords.asked raw) (L4Proto.get F S raw calls).0
          × ((L4Proto.get F S raw calls).1
              ≡ calls
                ++ (if L4Proto.is_default raw
                    then []
                    else listed_calls L4Keywords.table (split raw comma))))
  get-asked = (
    (L3Keywords.get_l3-asked F P S L raw calls, L3Keywords.get_l3-listed_calls F P S L raw calls),
    (L4Keywords.get_l4-asked F P S L raw calls, L4Keywords.get_l4-listed_calls F P S L raw calls),
  )
