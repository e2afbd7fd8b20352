-- ===== src/PcapFsn/Log.antt =====
-- `logEvent` and `logFsEvent` in pcap-fsnotify/main.go: the entries that are handed to the logger. How
-- the logger writes an entry, and the time in it, is left out.
use cloud_run_tcpdump.Prelude.{if◌then◌else◌, is_nil, ℕ, Option, none, some, List, [], ◌∷◌}
use cloud_run_tcpdump.Text.{Text, codes, text_eq}

-- `zapcore.Level`
pub data Level : Type 0 where
  info warn error fatal : Level

-- `pcapEvent`
pub data PcapEvent : Type 0 where
  initialized ended failed created exported queued memory signaled locking : PcapEvent

unfoldable pub event_name : PcapEvent → Text
event_name initialized = codes "PCAP_FSNINI"
event_name ended = codes "PCAP_FSNEND"
event_name failed = codes "PCAP_FSNERR"
event_name created = codes "PCAP_CREATE"
event_name exported = codes "PCAP_EXPORT"
event_name queued = codes "PCAP_QUEUED"
event_name memory = codes "PCAP_OSWMEM"
event_name signaled = codes "PCAP_SIGNAL"
event_name locking = codes "PCAP_FSLOCK"

-- `fsnEvent`
pub record FsnEvent : Type 0 where
  pub source : Text
  pub target : Text
  pub bytes : ℕ

-- A value in the data of an entry.
pub data Value : Type 0 where
  as_text : Text → Value
  as_number : ℕ → Value
  as_event : FsnEvent → Value

-- `map[string]interface{}`
abbrev pub Fields : Type 0
Fields = List (Text × Value)

unfoldable pub set : Text → Value → Fields → Fields
set key v [] = (key, v) ∷ []
set key v ((k, w) ∷ rest) =
    let more = set key v rest in if text_eq k key then (k, v) ∷ rest else (k, w) ∷ more

-- `maps.Copy`
unfoldable pub copy : Fields → Fields → Fields
copy into [] = into
copy into ((key, v) ∷ rest) = copy (set key v into) rest

unfoldable pub get : Text → Fields → Option Value
get key [] = none
get key ((k, v) ∷ rest) = if text_eq k key then some v else get key rest

pub record Entry : Type 0 where
  pub level : Level
  pub message : Text
  pub sidecar : Text
  pub module_name : Text
  pub tags : List Text
  pub fields : Fields

-- The variables of the environment that every entry has.
pub record Source : Type 0 where
  pub sidecar : Text
  pub module_name : Text
  pub project_id : Text
  pub service : Text
  pub gcp_region : Text
  pub version : Text
  pub instance_id : Text

abbrev pub tags_of : Source → List Text
tags_of s = s.project_id ∷ s.service ∷ s.gcp_region ∷ s.version ∷ s.instance_id ∷ []

unfoldable pub with_error : Option Text → Fields → Fields
with_error none fields = fields
with_error (some err) fields = set (codes "error") (as_text err) fields

-- The data of the caller is copied over the event and the error.
unfoldable pub log_event : Source → Level → Text → PcapEvent → Fields → Option Text → Entry
log_event s level message event given err =
    let fields = with_error err ((codes "event", as_text (event_name event)) ∷ []) in
    record {
      level = level;
      message = message;
      sidecar = s.sidecar;
      module_name = s.module_name;
      tags = tags_of s;
      fields = if is_nil given then fields else copy fields given;
    }

unfoldable pub log_fs_event :
    Source → Level → Text → PcapEvent → Text → Text → ℕ → Option Text → Entry
log_fs_event s level message event src tgt bytes err =
    log_event s level message event
      ((codes "fs", as_event (record { source = src; target = tgt; bytes = bytes })) ∷ []) err
