-- ===== src/Filter.antt =====
-- tcpdumpw/pkg/filter: the providers that turn the command line's simple filters into BPF text.
pub mod Compat
pub mod Protos
pub mod L3Proto
pub mod L4Proto
pub mod Layers
pub mod Listing
pub mod Ports
pub mod TcpFlags
pub mod Dns
pub mod Ip
pub mod Provider
