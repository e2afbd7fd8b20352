-- ===== src/PcapFsn/Loop/Signal.antt =====
-- The file TCPDUMPW_EXITED: tcpdumpw/main.go names and creates it, pcap-fsnotify/main.go looks for it.
use cloud_run_tcpdump.Prelude.{◌≡◌, refl, ap, true, false, none, [], ◌∷◌, ◌++◌, arith}
use cloud_run_tcpdump.Text.{Text, codes}
use cloud_run_tcpdump.Text.Laws.{text_eq_refl, text_eq_iff}
use cloud_run_tcpdump.PcapFsn.FileName.{find_submatch, strip_prefix}
use cloud_run_tcpdump.PcapFsn.Export.{Config}
use cloud_run_tcpdump.PcapFsn.Loop.{is_exit_signal, is_pcap}
use cloud_run_tcpdump.Tcpdumpw.Main.{exit_signal}

strip_prefix-append : (dir p t : Text) → strip_prefix (dir ++ p) (dir ++ t) ≡ strip_prefix p t
unfolding strip_prefix
strip_prefix-append [] p t = refl
strip_prefix-append (c ∷ dir) p t = ground (arith, strip_prefix-append dir p t)

module _ (cfg : Config) where
  is_pcap_prefixed :
      (name : Text)
      → strip_prefix (cfg.src_dir ++ codes "/part__") name ≡ none
      → is_pcap cfg name ≡ false
  unfolding is_pcap find_submatch
  is_pcap_prefixed name e = rw (e, find_submatch) refl

  exit_signal_is_no_pcap : is_pcap cfg (exit_signal cfg.src_dir) ≡ false
  unfolding exit_signal strip_prefix
  exit_signal_is_no_pcap =
      is_pcap_prefixed (exit_signal cfg.src_dir)
        (strip_prefix-append cfg.src_dir (codes "/part__") (codes "/TCPDUMPW_EXITED"))

  -- On the same directory, the watcher takes the file that tcpdumpw creates at its end for the exit
  -- signal and not for a PCAP file, and takes no PCAP file for the exit signal.
  pub is_exit_signal-exit_signal :
      (is_exit_signal cfg (exit_signal cfg.src_dir) ≡ true)
      × (is_pcap cfg (exit_signal cfg.src_dir) ≡ false)
      × ((name : Text) → is_pcap cfg name ≡ true → is_exit_signal cfg name ≡ false)
  unfolding is_exit_signal exit_signal
  is_exit_signal-exit_signal = (
    text_eq_refl (exit_signal cfg.src_dir),
    exit_signal_is_no_pcap,
    λ name h.
        let signal = exit_signal cfg.src_dir in
        ground (arith, ap (is_pcap cfg), text_eq_iff name signal, exit_signal_is_no_pcap),
  )
