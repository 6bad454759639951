-- ===== src/Config/Inherit.antt =====
-- Inheriting the security settings.
