-- ===== src/Lib.antt =====
-- The packet capture sidecar: two Go programs that run beside a service. `tcpdumpw` reads the options,
-- builds a BPF filter and starts the captures; `pcap-fsnotify` watches the directory that the captures
-- write to and moves each finished file to the mounted bucket. They share the directory, a lock file,
-- and the file that signals the end of `tcpdumpw`.
--
-- tcpdumpw/pkg/filter, the providers of filters. Each provider is a function `get` from its raw filter
-- and the calls made so far on the compatibility filters (`pcap.PcapFilters`, here the list of calls)
-- to the filter, `none` for a nil pointer, and the calls.
--   Filter.Compat: the calls, and the tests for `ALL`, `ANY` and empty texts.
--   Filter.Protos: what `Get` of l3_proto_filter_provider.go and of l4_proto_filter_provider.go share.
--     Filter.L3Proto and Filter.L4Proto hold what differs, the `switch` over the names.
--   Filter.Ports, Filter.TcpFlags: ports_filter_provider.go and tcp_flags_filter_provider.go; `visit`
--     is the function that is handed to `Each`. Filter.TcpFlags.Meaning reads the hexadecimal mask.
--   Filter.Dns: `hostToIPs`, `hostsToIPs` and `Get` of dns_filter_provider.go.
--   Filter.Ip: `getIPsAndNETs` (`get_ips_and_nets`) and `Get` of ip_filter_provider.go.
--   Filter.Listing: filters of the form `host a or host b`.
--   Filter.Provider: `applyFilter` (`apply_filter`) of filter_provider.go, and the methods `String`;
--     Filter.Provider.Factory, the functions `New…FilterProvider` with the constructors in the file of
--     each provider; Filter.Provider.Methods, the methods `Apply`.
-- tcpdumpw/main.go.
--   Tcpdumpw.Setup: `appendFilter` (`append_filter`), and how `main` chooses the filter (`choose`).
--   Tcpdumpw.Ephemeral: `parseEphemeralPorts`.
--   Tcpdumpw.Tasks: `createTasks` (`create_tasks`) and `newPcapConfig`, over the engines and writers of
--     the capture library (`Engines`).
--     Tcpdumpw.Tasks.Lines has what `createTasks` logs.
--   Tcpdumpw.Main: `main` up to the capture, which puts these three together, and the exit codes.
--   Tcpdumpw.Run: the threads from there on as a step relation: `start`, `waitJobDone`, `waitDone`,
--     `startTCPListener`, the handler of signals, and the scheduler.
--   Tcpdumpw.Deadline: `waitJobDone` with its goroutine, the timer and the channel `stopDeadline`, over
--     time; in Tcpdumpw.Run the wait may end at any moment, and a goroutine that it leaves behind may
--     end the process.
--   Tcpdumpw.Schedule: the time zone, the options of the scheduler and the cron expression (`prepare`).
--   Tcpdumpw.Jobs: `beforeTcpdump`, `tcpdump`, `afterTcpdump` and `jlog` over the identifiers of a run,
--     and the registration of the job (`register`).
-- pcap-fsnotify/main.go.
--   PcapFsn.FileName: the pattern `pcapDotExt` (`find_submatch`) and the key of a file (`key_of`).
--     PcapFsn.FileName.Written has the names that tcpdumpw/main.go writes (`runFileOutput`).
--   PcapFsn.Move: `movePcapToGcs`, over a file system (`Fs`) whose calls may fail (`Faults`).
--   PcapFsn.Export: `exportPcapFile`; its state is the two maps, `isActive` and the files. PcapFsn.Export.Run
--     is the loop over events, for names of new files; PcapFsn.Export.Flush, the calls at the end.
--   PcapFsn.Loop: the loop over events in `main` (`run_loop`): what it makes of each value that it
--     receives. PcapFsn.Loop.Stops says where it ends, and Signal which file is the exit signal.
--   PcapFsn.Log: `logEvent` and `logFsEvent`. PcapFsn.Move.Lines and PcapFsn.Export.Lines give the entries
--     that `movePcapToGcs` and `exportPcapFile` log; PcapFsn.Move.Replay, the files that a log tells of.
--     PcapFsn.FlushDir.Lines has the entries of the last flush, call by call.
--   PcapFsn.FlushDir: `flushSrcDir` (`flush_src_dir`): the walk over the directory at the end.
--     PcapFsn.FlushDir.Kept follows one file through the loop over events and the last flush.
--     PcapFsn.FlushDir.AtOnce has the flushing calls at once, over the steps of a move that
--     PcapFsn.Move.Steps names. The calls to the file system fail for each file on its own.
--   PcapFsn.Main: `main` from its start to its end, with the loop over events and the last flush one
--     behind the other, and what it leaves in the bucket.
--   PcapFsn.Memory: `getCurrentMemoryUtilization`, `flushBuffers`, and the ticks that call them.
--   PcapFsn.Shutdown: the threads of `main` as a step relation; each step is one atomic action, and other
--     steps may come between a swap of `isActive` and the `cancel()` behind it.
-- Sidecar: the steps of Tcpdumpw.Run and of PcapFsn.Shutdown in any order. The watcher sees the exit
--   signal only where the other program has created it, and gets the lock only where it was released.
--
-- Texts are lists of the codes of ASCII characters; case and blanks are those of ASCII. What is not in
-- this repository is a parameter (Ext): the formatter of texts, the sets, the capture library with its
-- constants and flags, `net/netip` with the resolver, the maps, and the functions on paths. What the
-- theorems rely on is a record of laws beside each. Ext.Models and Tests.Data hold instances. The order
-- in which a set lists its elements is open. The resolver and the sets answer the same whenever they are
-- asked while `main` chooses the filters, or one `Get` goes on; they may answer otherwise later, when the
-- filters are applied. Counters wrap at 2^64, ports are 16 bits wide. Every loop
-- is structural recursion on a list, but for `decimal` (Text.Decimal), whose fuel is the number plus one;
-- that is enough, since every round divides the number by ten. The walk of `flushSrcDir` counts in 32
-- bits, and the timeout of a capture wraps at 2^64 nanoseconds, as the deadlines of Tcpdumpw.Deadline do.
--
-- Not modelled: log lines other than those of a run of the scheduled job, of `createTasks`, of the
-- time zone, and of the moves and exports of the watcher; how zap writes an entry; a context that is
-- done when the filters are chosen, since `main` cancels it only later; times in general, but for the
-- end of `start` in Tcpdumpw.Deadline, so elsewhere a deadline may pass at any moment; what a capture
-- writes to its file while the watcher runs, since a file has all its content from the start; the
-- fragment of gcsfuse under gcsfuse/patch, which is compiled as part of another program; scripts and
-- images.
pub mod Prelude
pub mod Text
pub mod Ext
pub mod Filter
pub mod PcapFsn
pub mod Tcpdumpw
pub mod Sidecar
pub mod Tests
