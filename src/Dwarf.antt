-- ===== src/Dwarf.antt =====
-- The reader of the debug information, src/dwarf.cpp.
pub mod Cursor
pub mod Abbrev
pub mod Die
pub mod Units
pub mod Frame
pub mod Expression
pub mod Form
pub mod LineTable
mod Examples
mod LineExamples
mod FormExamples
mod DieExamples
mod TreeExamples
mod ExpressionExamples
