-- ===== src/Abm.antt =====
-- Advanced buffer management (src/abm): the map from DSCP values to bands.
pub mod Cls
mod Tests
