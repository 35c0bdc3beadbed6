-- ===== src/Net.antt =====
-- The network device (src/nfp_net_common.c): its reconfiguration by the firmware.
pub mod Reconfig
mod Tests
