-- ===== src/PcapFsn.antt =====
-- pcap-fsnotify/main.go: the watcher that moves finished PCAP files into the bucket's directory.
pub mod FileName
pub mod Log
pub mod Move
pub mod Export
pub mod Loop
pub mod FlushDir
pub mod Main
pub mod Memory
pub mod Shutdown
