-- ===== src/Lib.antt =====
-- dnrd is a proxy for DNS queries: it answers from a local database (the master) or from a cache of
-- answers, or else forwards a query to an upstream server of each network interface, and returns the
-- first good reply. This library models the C sources in dnrd-2.20.3/src and states what they do.
--
-- The parts, in the order in which a message meets them:
-- - dns.c, dns.h and check.c, the format of messages: Dns.Flags (the macros of the flags), Dns.Check
--   (check_query, check_reply), Dns.Objname (get_objname, which decodes a name), Dns.Packet
--   (decode_header, parse_query, read_record, check_replycode).
-- - lib.c, strings: Text (strnlwr, get_stringcode) and Text.Words (skip_ws, noctrln, get_word).
-- - master.c, the local database: Master (the records, add_record and the lookups), Master.Load
--   (get_hostname, read_hosts, read_configuration, read_blacklist), Master.Init (master_init,
--   master_reinit), Master.Assembly (begin_assembly, compile_name and the others, end_assembly),
--   Master.Lookup (master_lookup, master_dontknow).
-- - relay.c, what becomes of a query: Relay (set_srvfail, handle_query), Relay.Checks
--   (deactivate_servers), Relay.Local (the call of master_lookup), Relay.Held (answers of the cache that are held back). handle_query asks the master and
--   the cache, and then chooses an interface. Relay.Run is run, the loop that waits for messages and
--   calls the handlers and the regular checks: a machine that takes one event a step.
-- - cache.c, the answers: Cache (cache_dnspacket, cache_lookup), Cache.Config (cache_init),
--   Cache.Expire (cache_expire, expire_oldest).
-- - srvnode.c and infnode.c, the servers of the interfaces: Server (next_active, set_current,
--   deactivate_current, reactivate_srvlist, no_srvlist) and Server.Startup (the option -s of args.c,
--   with search_infnode, add_interface, add_srv and last_srvnode).
-- - query.c, the queries that wait for replies: Query (query_create, query_add, query_delete_next,
--   which is query_delete here, and query_destroy), Query.Timeout (query_timeout).
-- - qid.c, the pool of the ids under which queries are forwarded: Qid (qid_init_pool, qid_get,
--   qid_return).
-- - udp.c, the handlers: Udp.Send (udp_send, send2current) and Udp (search_server, reply_recv,
--   udp_handle_reply), and Udp.Request (udp_handle_request). A client's message is checked, and what
--   handle_query says is done; a reply is checked, cached and sent to the client of its query.
--   Udp.Special finds the interfaces of special hosts (snprintf_cname of dns.c, and the beginning of
--   send2current). Udp.Dummy is udp_send_dummy, with retry_srvlist of infnode.c and reactivate_servers of relay.c.
-- - args.c and main.c, the start: Args (parse_args), Main (main, with dnrd_root_sanity_check, init_socket
--   and init_dnrd_uid, and the variables that run finds) and Args.Start (the current servers as main sets
--   them; that of the head of the list of interfaces is the head of its empty list of servers).
-- - sig.c, the signals: Sig (sig_handler). The loop lets them in while it waits for messages, and then
--   reads the files of the local database anew where SIGHUP was one of them.
-- The modules below these hold proofs, named for what they prove; Prelude holds what all share, and
-- Tests concrete runs.
--
-- A message or string is the list of its bytes. A record holds the variables of each file, and a
-- function on it stands for each C function, with what the function meets outside (the time, random
-- numbers, descriptors, new addresses, received messages, the results of sendto) as arguments. A
-- linked list is the list of the addresses of its nodes behind the head, with a function from
-- addresses to nodes. Numbers are natural numbers; counters that C may take below zero are integers
-- (Prelude.Int), and conversions that wrap around are written out where the code depends on them.
--
-- Some loops run on fuel. get_objname has as much as the packet and the buffer are long, and its
-- result `stuck` for lack of fuel does not occur; query_timeout has a number that a list of its length
-- cannot use up; the loops of master.c have as much as a line is long, or as there are records (the
-- last one of master_init twice that), which they do not use up. The inner loop of send2current runs
-- over the results of sendto instead, and the loop of run over the events that come.
--
-- Not under dnrd-2.20.3/src, and so arguments: qsort, inet_aton, the contents of files, the socket
-- calls and the allocator. A file is the list of the lines that fgets reads. The buffer of 600 bytes
-- for an answer and the array of five matched interfaces are lists without a bound, as nothing in the
-- code checks them. Where the program would fail (an assert, or the head of the list taken for a
-- query), the step gives `none`.
--
-- Not modelled: the removals from the lists of servers
-- and interfaces, sort (whose result nothing reads), srv_stats, which only writes the log, the parts of
-- common.c that write the log or end the program, init_sig_handler, tcp.c (compiled only on
-- request), and the generator in rand.c. The semaphore of cache.c is left out, since one thread runs
-- these functions. Allocation is taken to succeed.
mod Prelude
pub mod Text
pub mod Dns
pub mod Cache
pub mod Qid
pub mod Server
pub mod Query
pub mod Udp
pub mod Relay
pub mod Master
pub mod Args
pub mod Main
pub mod Sig
mod Tests
