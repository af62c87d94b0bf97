-- ===== src/Pool.antt =====
-- The tiers in which cf.c keeps free pages, free abstract addresses and free buckets: a list of
-- items that the thread takes from, the thread's full buckets, and the shared stack of buckets.
pub mod Lists
pub mod Tiers
pub mod Turns
pub mod Counting
