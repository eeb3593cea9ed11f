-- ===== src/Common/Dict.antt =====
-- Go's maps and sets: the names of the children, passed on.
mod Maps
mod Members
unfoldable pub use Maps.*
unfoldable pub use Members.*
