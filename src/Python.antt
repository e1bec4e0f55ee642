-- ===== src/Python.antt =====
-- What the program uses of the Python language and its standard library.
pub mod Text
pub mod Int
pub mod Json
pub mod Dumps
pub mod Float
