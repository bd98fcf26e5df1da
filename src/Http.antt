-- ===== src/Http.antt =====
-- The web server under src/http.
pub mod Buffer
pub mod Config
pub mod FullPath
pub mod ParserPool
pub mod LuaStates
pub mod Request
pub mod SendFile
pub mod Server
pub mod Parsers
