-- ===== src/Libc.antt =====
-- What the program uses of the C language and its standard library: bytes in memory, the
-- representation of an `int`, and the string functions.
pub mod Memory
pub mod CString
