-- ===== src/Runtime.antt =====
-- What the program takes from the Python runtime and does not implement itself: floats, and
-- the Unicode tables behind the methods of `str`; and the values of `json`.
pub mod Text
pub mod Float
pub mod Unicode
pub mod Json
