-- ===== src/Templates/Tests.antt =====
-- tests
