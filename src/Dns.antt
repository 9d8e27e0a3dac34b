-- ===== src/Dns.antt =====
-- dnrd-2.20.3/src/dns.c, dns.h and check.c: reading DNS packets.
pub mod Flags
pub mod Check
pub mod Objname
pub mod Packet
