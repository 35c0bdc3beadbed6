-- ===== src/Jit.antt =====
-- The translator of the BPF offload (src/bpf/jit.c): the program that it builds in Jit/Prog, the
-- emitters in Jit/Emit, what the wrappers load and move in Jit/Wrap, and the shifts in Jit/Shift.
pub mod Prog
pub mod Emit
pub mod Count
pub mod Wrap
pub mod Shift
pub mod Alu
pub mod Translate
pub mod Relo
mod Tests
