-- ===== src/CompilerId.antt =====
-- CMakeCCompilerId.c, which CMake compiled for both parts of Praktikum 2 (there in
-- cmake-build-debug/CMakeFiles/3.27.8/CompilerIdC, the same text twice).
pub mod Macros
pub mod Early
pub mod Late
pub mod Branches
pub mod Platform
pub mod Info
pub mod Digits
pub mod Gaps
pub mod Bounds
mod Tests
