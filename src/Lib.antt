-- ===== src/Lib.antt =====
-- Verification of the packet engine of Prizma, the C code of nfq2/. The engine takes packets from the
-- kernel, finds the headers in them (darkmagic.c), follows their connections (conntrack.c), recognises
-- what they carry (protocol.c), joins the segments of a message that is longer than a packet
-- (`t_reassemble` in conntrack.c) while the packets wait (packet_queue.c), and then lets a strategy
-- change them at places that markers name (`ResolvePos` in protocol.c). Which strategy that is depends on the
-- profile of the connection (`dp_find` in desync.c): its filters of ports and protocols (filter.c), its lists
-- of addresses (ipset.c) and of host names (hostlist.c), to which names are added that fail.
--
-- Which file models what (children of a module hold its theorems and tests):
--   Base        names of the libraries, Boolean tests, lists, `Out`, memory, bit operations
--   Bytes       nfq2/helpers.c: `pntoh16` to `phton64`, `bswap16` to `bswap48`
--   Dissect     nfq2/darkmagic.c: `proto_dissect_l3l4`, `proto_check_*`, `proto_skip_*`
--   Positions   nfq2/conntrack_base.h: `t_ctrack_position`, `t_ctrack_positions`
--   Queue       nfq2/packet_queue.c: `rawpacket_queue` and the rest of that file
--   Conntrack   nfq2/conntrack.c: `t_ctrack`, `ConntrackApplyPos`, `ConntrackFeedPacket`
--   Conntrack.Options   nfq2/darkmagic.c: `tcp_find_option` and its users, the tests of the flags
--   Conntrack.Pool      nfq2/conntrack.c: the pool, `ConntrackPoolFeed`, `ConntrackPoolDoubleSearch`,
--                       `ConntrackPoolDrop`, `ConntrackPoolPurge`
--   Reasm       nfq2/conntrack.c: `ReasmInit`, `ReasmFeed` and the others on `t_reassemble`
--   Tls         nfq2/protocol.c: from `TLSHandshakeDataLen` to `TLSHelloExtractHostFromHandshake`
--   Classify    nfq2/protocol.c: the tests on fixed bytes, as `IsDNSQuery`, `IsStunMessage`, `IsDTLS`
--   Http        nfq2/protocol.c: `IsHttp`, `HttpFindHost`
--   Markers     nfq2/protocol.c: `FindNLD`, `HostPos`, `HttpPos`, `TLSPos`, `ResolvePos`
--   Quic        nfq2/protocol.c: `tvb_get_varint`, `QUICDraftVersion`, `IsQUICInitial`,
--               `IsQUICCryptoHello`; Quic.Defrag: `QUICDefragCrypto`
--   Checksum    nfq2/checksum.c: `from64to16`, `csum_tcpudp_magic`; Checksum.Sum: `do_csum`
--   Helpers     nfq2/helpers.c: `seq_within`, `parse_hex_str`, `hex_digit`, UNIQ_SORT
--   Text        `sscanf` and `strchr` of the C library, which several files use
--   Filter      nfq2/filter.c, nfq2/filter.h: `pf_parse`, `pf_match`, `icf_parse`, `ipp_parse`,
--               `packet_range_parse`, `parse_cidr4`, `parse_cidr6`
--   Hostlist    nfq2/hostlist.c and its part of nfq2/pools.c: `SearchHostList`, `HostlistCheck_`;
--               Hostlist.Load: `AppendHostList`, `LoadHostList`, `HostlistsReloadCheck`, `HostlistCheck`
--   Ipset       nfq2/ipset.c and its part of nfq2/pools.c: `kavl_bit_add`, `SearchIpset`, `IpsetCheck_`;
--               Ipset.Load: `AppendIpset`, `LoadIpset`, `IpsetsReloadCheck`, `IpsetCheck`
--   Profile     nfq2/desync.c: `dp_match`, `dp_find`; nfq2/pools.c: `port_filters_match` and its like
--   Desync.Limits     nfq2/desync.c: `pos_overflow`, `check_pos_from`, `check_pos_cutoff`, `check_pos_range`
--   Desync.Sessions   nfq2/desync.c: `send_delayed`, `reasm_client_start` to `reasm_client_fin`
--   Desync.Failures   nfq2/desync.c: `auto_hostlist_failed`, `auto_hostlist_retrans`, `process_udp_fail`;
--                     nfq2/pools.c: the counters of failures
--   Timer       nfq2/timer.c; nfq2/lua.c: `luacall_timer_set`, `luacall_timer_del`
--
-- How C is read. A function `FooBar` is `foo_bar` here. A buffer is a list of numbers below 256, a
-- pointer an offset of it, with the length that C passes beside it. What may fail returns `Out`: `ok`
-- with the value, `no` for a refusal (false, NULL, POS_NOT_FOUND), `fault` for an access outside the
-- buffer, which C leaves undefined. `Ensures P r` says that `r` is no fault and that its value, if there
-- is one, satisfies `P`. Unsigned arithmetic that may wrap is written with `wrap8` to `wrap64`, `sub32`
-- and `sub64`. A signed number is given by the bits of its two's complement. Results of malloc, clocks
-- and the sort of the library are arguments. The containers uthash and kavl are interfaces with the laws
-- that the code relies on: `Conntrack.Pool.Table`, `Hostlist.Pools`, `Desync.Failures.FailPools` and
-- `Ipset.Trees`; `Hostlist.Table.functions` and `Ipset.Sorted.element_lists` show that these laws can hold.
-- The disk and the memory are the record `Hostlist.Load.System`, `inet_pton` is `Ipset.Load.Pton`, the raw
-- sockets are what `rawsend_rp` returns, and the functions of timers are `Timer.Lua`.
--
-- Loops recurse on what is left or on fuel. The fuel is the length of what is walked and one more: every
-- turn takes at least a byte. Where it ran out `ipv6_headers`, `walk` and `frames` return `fault`, which
-- `Ensures` excludes; `find_option`, and `add_all` of both kinds of lists, return `none`. The loop of
-- `kavl_bit_add` has the size of the tree and one more, and `run_again` of Timer, which a script can
-- keep going for ever, what it is given.
--
-- Not modelled: main loops and options (nfq2/nfqws.c, nfq2/params.c), the Lua bindings (nfq2/lua.c) but for
-- those of timers, the part of nfq2/desync.c that hands packets to Lua functions and follows what they
-- return, building and sending packets, the lists of functions and blobs and the cache of addresses in
-- nfq2/pools.c, the checksums of headers, the tools ip2net and mdig, system services, and the vendored hashes,
-- ciphers and containers, on which the decryption of QUIC and MTProto rests.
mod Base
pub mod Bytes
pub mod Dissect
pub mod Reasm
pub mod Tls
pub mod Positions
pub mod Queue
pub mod Conntrack
pub mod Classify
pub mod Quic
pub mod Http
pub mod Markers
pub mod Checksum
pub mod Helpers
pub mod Text
pub mod Filter
pub mod Hostlist
pub mod Desync
pub mod Ipset
pub mod Profile
pub mod Timer
