-- ===== src/Process.antt =====
-- Class `process` (include/libkdebugger/process.hpp, src/process.cpp) with the breakpoint sites and
-- the tracee's memory: what the kernel does stands in `Tracee`, a parameter.
pub mod Tracee
pub mod State
pub mod Hardware
pub mod Site
pub mod Memory
pub mod Watch
pub mod Stop
pub mod Threads
pub mod Life
pub mod Control
pub mod Flat
mod Examples
mod WatchExamples
mod StopExamples
mod ControlExamples
