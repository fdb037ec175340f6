-- ===== src/Config/Tests.antt =====
-- tests
