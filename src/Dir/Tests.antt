-- ===== src/Dir/Tests.antt =====
-- fs.c: a search in a directory of seven entries.
