-- ===== src/Notify.antt =====
-- internal/notify: the notices that the program sends.
pub mod Throttle
