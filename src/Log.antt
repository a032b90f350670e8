-- ===== src/Log.antt =====
-- src/colinux/kernel/debug.c and the log's tools: what the driver and its clients log, kept in
-- sections until a reader takes it, and the records that common/debug.c builds and that
-- user/debug/main.c takes apart.
pub mod Memory
pub mod Vector
pub mod Section
pub mod Write
pub mod Read
pub mod Sound
pub mod Append
pub mod Content
pub mod Drain
pub mod Refine
pub mod Steps
pub mod Loop
pub mod Life
pub mod Tlv
pub mod Fields
pub mod RoundTrip
pub mod Entries
mod Tests
