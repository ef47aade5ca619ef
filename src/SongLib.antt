-- ===== src/SongLib.antt =====
-- songLib/: the libraries of songs behind the two database connections.
pub mod Connection
pub mod WebLib
pub mod LocalLib
