-- ===== src/Util.antt =====
-- The helpers under src/util.
pub mod LuaEval
