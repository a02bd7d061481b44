-- ===== src/LinTree.antt =====
-- lintree.h and lintree.cc: values as strings of bytes.
pub mod Buffer
pub mod Encoding
pub mod Tests
