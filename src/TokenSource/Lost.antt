-- ===== src/TokenSource/Lost.antt =====
-- A refreshed token whose update failed is never written again.
