-- ===== src/Parking.antt =====
-- internal/parking: what stands between the program and the council's portal.
pub mod Breaker
pub mod Governor
pub mod Health
pub mod Client
