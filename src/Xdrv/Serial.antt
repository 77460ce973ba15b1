-- ===== src/Xdrv/Serial.antt =====
-- The serial protocols of the X driver (src/xdrv/wcmSerial.c, src/xdrv/wcmISDV4.c), and the buffer that
-- their packets are read to (src/xdrv/xf86Wacom.c).
pub mod Read
pub mod Port
pub mod Protocol4
pub mod Protocol5
pub mod Isdv4
pub mod Reads
pub mod Resync
pub mod Parsers
pub mod Within
pub mod Decode
