-- ===== src/Util.antt =====
-- src/util: the generic containers.
pub mod Stack
pub mod Hashtable
