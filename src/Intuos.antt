-- ===== src/Intuos.antt =====
-- Intuos and Cintiq: `wacom_intuos_irq` (src/2.6.30/wacom_wac.c). The reports that bring a tool near
-- or take it away stand in Intuos/Tools, the pad packets in Intuos/Pads, the packets of a tool
-- in Intuos/Motion.
pub mod Tools
pub mod Pads
pub mod Motion
pub mod Rotation
pub mod Features
pub mod Held
pub mod Lifecycle
pub mod Reports
pub mod PadKeys
pub mod PadQuiet
