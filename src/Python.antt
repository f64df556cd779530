-- ===== src/Python.antt =====
-- The values of Python that the modules share: the integers, the floats as their IEEE 754 bit
-- patterns, the JSON values of a request, and the texts with the parts of `str` that the program
-- calls.
pub mod Numbers
pub mod Floats
pub mod Values
pub mod Text
pub use Numbers.{ℤ, pos, negsuc}
pub use Values.*
