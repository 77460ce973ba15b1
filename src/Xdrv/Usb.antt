-- ===== src/Xdrv/Usb.antt =====
-- src/xdrv/wcmUSB.c: the events of the kernel, collected to records and turned into the states of tools.
pub mod State
pub mod Keys
pub mod Axes
pub mod Channel
pub mod Queue
pub mod Records
pub mod Serials
pub mod Buttons
pub mod Kept
pub mod Distinct
