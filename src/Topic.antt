-- ===== src/Topic.antt =====
-- Topics and topic filters: src/mqtt-core/src/subs.c (tokens) and src/mqtt-core/lib/util_mosq.c.
pub mod Tokens
pub mod Split
pub mod Wildcards
pub mod Filters
pub mod Iterate
pub mod Covers
