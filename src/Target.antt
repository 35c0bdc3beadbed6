-- ===== src/Target.antt =====
-- src/nfpcore/nfp_target.c: what a CPP command transfers, and how an island is put into an address.
-- Numbers of type `int` that are only islands, modes and bit positions are natural numbers.
pub mod Tables
pub mod PushPull
mod Tests
pub mod Encode
