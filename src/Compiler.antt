-- ===== src/Compiler.antt =====
-- The scanner, the class files and the line map of the compiler (togo/internal/compiler).
pub mod Kinds
pub mod Keywords
pub mod Scanner
pub mod Trivia
pub mod Escape
pub mod ByteBuffer
pub mod ClassFile
pub mod ConstantPool
pub mod LineMap
mod Samples
