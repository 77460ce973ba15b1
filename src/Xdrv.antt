-- ===== src/Xdrv.antt =====
-- The X driver (src/xdrv): the calls for button events, what stands in front of the events, the classes
-- of tools, and the averages of samples.
pub mod Buttons
pub mod Events
pub mod ToolIds
pub mod Filter
pub mod Areas
pub mod Turns
pub mod Usb
pub mod Serial
pub mod Gestures
pub mod Wheels
pub mod SendButton
pub mod Send
pub mod Select
pub mod Pressure
pub mod Common
