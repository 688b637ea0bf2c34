-- ===== src/Profiles.antt =====
-- profiles/: named deployment shapes, which rewrite or refuse a driver's block before it is used.
pub mod Supabase
