-- ===== src/Python.antt =====
-- Python as the program uses it: values, exceptions and calls that may raise.
pub mod Value
pub mod Compare
pub mod Text
pub mod Exception
pub mod Action
pub mod Context
