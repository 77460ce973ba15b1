-- ===== src/Sys.antt =====
-- The system side of the kernel driver (src/2.6.30/wacom_sys.c): the life of an interface, the LEDs, and the
-- report descriptor.
pub mod Probe
pub mod Life
pub mod Hid
pub mod Leds
