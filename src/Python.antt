-- ===== src/Python.antt =====
-- What the program uses of the language: exceptions, integers, dynamic values, dictionaries.
pub mod Outcome
pub mod Int
pub mod Value
pub mod Dict
pub mod Action
pub mod Repr
