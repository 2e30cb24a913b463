-- ===== src/Audit/Misread.antt =====
-- getLastEntryHash where its step fails: the entry is chained to zeros, as in an empty log.
