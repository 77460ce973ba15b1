-- ===== src/Lib.antt =====
-- linuxwacom: the Wacom tablet drivers, the kernel's packet handlers and the X driver.
--
-- The program has two halves. The kernel driver (src/2.6.30/wacom_wac.c, wacom_wac.h, wacom_sys.c)
-- receives the packets of a USB tablet. `wacom_wac_irq` chooses the handler by the model type, the
-- handler decodes the packet, keeps the tool state in `struct wacom_wac` and posts events to the
-- kernel's input core, and a synchronisation ends a frame of events.
-- `wacom_setup_input_capabilities` declares which events a model may post. The X driver (src/xdrv)
-- collects such events to records and gives each record to the channel of its tool, or cuts the
-- bytes of a serial port to packets; it suppresses small changes, rotates the position and turns
-- masks of buttons into button events.
--
-- Which file models which part:
-- - Prelude, with its children Tests, Arrays, Int, Bits and Digits: C's tests, arrays, integers
--   and the lemmas on masks, shifts and single bits.
-- - Input: the key codes, the axes and the events of the input core, and `held`, whether a key is
--   down after a history of events.
-- - Wacom: src/2.6.30/wacom_wac.h, and the calls of the input core.
-- - Pen: wacom_penpartner_irq, wacom_dtu_irq, wacom_pl_irq, wacom_ptu_irq, wacom_dtus_irq.
--   Pen.Handover and Pen.Decode hold the theorems.
-- - Bpt, with Bpt.Fingers: wacom_bpt_irq. Graphire, with Graphire.Tools: wacom_graphire_irq. Tpc,
--   with Tpc.Fingers: wacom_tpc_irq.
-- - Intuos.Tools: wacom_intuos_inout. Intuos.Pads: the pad branch of wacom_intuos_irq.
--   Intuos.Motion: wacom_intuos_general and the rest of wacom_intuos_irq. Intuos.Held,
--   Intuos.Lifecycle, Intuos.Features, Intuos.Reports, Intuos.Rotation, Intuos.PadKeys and
--   Intuos.PadQuiet hold the theorems.
-- - Irq, with Irq.Kept and Irq.Frames: wacom_wac_irq. Caps, with Caps.Declared, Caps.Pads and
--   Caps.Missing: wacom_setup_input_capabilities.
-- - Sys: src/2.6.30/wacom_sys.c. Sys.Probe has wacom_probe and wacom_disconnect, with
--   Sys.Probe.Shared and Sys.Probe.Clean; Sys.Life the life of an interface, with Sys.Life.Sleeps;
--   Sys.Hid wacom_parse_hid and wacom_retrieve_hid_descriptor, with Sys.Hid.Within, Sys.Hid.Items
--   (the items of a HID descriptor and their meaning, after the HID class definition) and
--   Sys.Hid.Sizes; Sys.Leds the LEDs, with Sys.Leds.Selected.
-- - Xdrv.Buttons, with Xdrv.Buttons.View and Xdrv.Buttons.Refine: xf86WcmSendButtons
--   (src/xdrv/wcmCommon.c). Xdrv.Events: xf86WcmSuppress, its use in xf86WcmEvent, and
--   xf86WcmRotateCoordinates. Xdrv.ToolIds: idtotype and the choice of the device type in
--   commonDispatchDevice. Xdrv.Filter, with Xdrv.Filter.Bounds: the sample averages of
--   src/xdrv/wcmFilter.c.
-- - Xdrv.Wheels: sendWheelStripEvents and sendKeystroke (src/xdrv/wcmCommon.c).
--   Xdrv.Wheels.Direction and Xdrv.Wheels.Balance hold the theorems.
-- - Xdrv.SendButton: sendAButton (src/xdrv/wcmCommon.c), with xf86WcmDevSwitchModeCall and the
--   screen of xf86WcmChangeScreen. Xdrv.SendButton.Release and Xdrv.SendButton.Screens hold the
--   theorems.
-- - Xdrv.Filter.Line: filterLine of src/xdrv/wcmFilter.c. Xdrv.Filter.Line.Rounded and
--   Xdrv.Filter.Line.Ends hold the theorems.
-- - Xdrv.Send: xf86WcmSendEvents and sendCommonEvents. Xdrv.Send.Frames and Xdrv.Send.Released
--   hold the theorems. Xdrv.Select, with Xdrv.Select.Chosen: the tool and the area in
--   commonDispatchDevice. Xdrv.Pressure, with Xdrv.Pressure.Least: its pressure. Xdrv.Common, with
--   Xdrv.Common.Good: commonDispatchDevice as a whole, and xf86WcmSoftOutEvent.
-- - Xdrv.Areas, with Xdrv.Areas.Overlap: the areas of tools in src/xdrv/wcmConfig.c. Xdrv.Turns,
--   with Xdrv.Turns.Sequence and Xdrv.Turns.Points: the rotation of the tools in
--   src/xdrv/wcmMapping.c and the rotation parameter of src/xdrv/wcmXCommand.c.
-- - Xdrv.Usb: src/xdrv/wcmUSB.c. Xdrv.Usb.State has the state, Xdrv.Usb.Queue usbParseEvent and
--   usbChooseChannel, Xdrv.Usb.Channel usbParseChannel, with its key events in Xdrv.Usb.Keys and
--   its absolute ones in Xdrv.Usb.Axes. Xdrv.Usb.Records, Xdrv.Usb.Serials, Xdrv.Usb.Buttons,
--   Xdrv.Usb.Kept and Xdrv.Usb.Distinct hold the theorems.
-- - Xdrv.Serial: Xdrv.Serial.Read has xf86WcmReadPacket (src/xdrv/xf86Wacom.c) and
--   xf86WcmSerialValidate, Xdrv.Serial.Port the state, Xdrv.Serial.Protocol4 and
--   Xdrv.Serial.Protocol5 the parsers of src/xdrv/wcmSerial.c, Xdrv.Serial.Isdv4 isdv4Parse
--   (src/xdrv/wcmISDV4.c). Xdrv.Serial.Reads, Xdrv.Serial.Resync, Xdrv.Serial.Parsers,
--   Xdrv.Serial.Within and Xdrv.Serial.Decode hold the theorems.
-- - Xdrv.Gestures: src/xdrv/wcmTouchFilter.c, with xf86WcmGestureFilter in the module itself, its
--   state in Xdrv.Gestures.State, xf86WcmFingerScroll in Xdrv.Gestures.Scroll and
--   xf86WcmFingerZoom in Xdrv.Gestures.Zoom. Xdrv.Gestures.Clicks and Xdrv.Gestures.Modes hold the
--   theorems.
-- - Examples: the theorems at concrete devices and packets.
--
-- How the code is modelled. A handler is a function of the packet and the state that gives the new
-- state and the return value. The state is `Wac`, the fields of `struct wacom_wac` with what
-- `shared` points at; the posted events are its field `posted`, the newest first, so that the
-- order of the calls is part of the model. Packets and the small arrays of the code are functions
-- of the index; packet bytes are arbitrary numbers, and theorems that need bytes say so. Unsigned
-- arithmetic that can wrap (the rotation counts) has its wrap written out; the other values stay
-- far below the width of `int`. The key codes of the kernel's header linux/input.h are not part of
-- the repository: they are symbols, and the one comparison of codes, `tool >= BTN_TOOL_MOUSE`,
-- follows their order there. The axis values that the core stores (`input->abs`), which the touch
-- handlers read, are a parameter, `InputCore`, of which nothing is assumed. Every loop of the
-- modelled code runs over a list or a fixed number of indices, so that no fuel is needed, but that
-- of xf86WcmReadPacket: it runs with one unit of fuel more than there are bytes, which is enough
-- because each turn takes a byte at least, or ends the loop. The parsers of the X driver give the
-- new state, and the reports that xf86WcmEvent gets are a field of it, the newest first. What
-- xf86WcmEvent leaves in the state of a channel (`valid.state`), the answers of the kernel to
-- ioctl and the clock are parameters of the parsers, of which nothing is assumed; `keep` of
-- Xdrv.Events is such an xf86WcmEvent. The X driver is modelled as built for Linux, not with the
-- branches for sun. The identifiers and serial numbers of tools are patterns of 32 bits, so that
-- the serial number -1 of a pad is 0xffffffff; the other integers of the X driver are unbounded,
-- as they stay far below the width of `int`. The buffer of a serial port is the list of its bytes.
-- The acceleration of a relative device, the unification of its axes and the test whether it has
-- moved, which are floating-point arithmetic, are parameters; the pressure of a pen is divided by
-- an exact division towards 0, where the code divides as floating-point numbers and cuts.
-- `filterLine` has fuel for one round more than the size of the curve, which is enough because
-- each round takes the longer coordinate one on. xf86WcmSendEvents is modelled for a build without
-- WCM_XORG_TABLET_SCALING, and `devReverseCount` and the valuators of button events are left out,
-- as is what a button of action AC_MODETOGGLE changes in the mode of the tool. The gesture filter
-- and the wheels are those of a build with WCM_KEY_SENDING_SUPPORT, and which keysyms of the X
-- server are modifiers is a parameter; the differences of the distances of fingers, which the code
-- computes with a square root in floating point, are parameters of it, and times are patterns of
-- 32 bits.
--
-- The button functions are those of a build with XF86_BUTTON1_BUG, and give the calls of
-- `sendAButton` as pairs of an index and a state.
--
-- Of wacom_sys.c, what is allocated is counted, with the devices of the shared list by number; the
-- answers of the kernel to the calls of a probe are a record, `Answers`, the calls of the USB and
-- input core are steps of a relation, and a read of wacom_parse_hid behind the descriptor is
-- `none`. Its loop runs over the list of the bytes, so that it needs no fuel: `skip` counts the
-- bytes that the code passes over by adding to the index. The names, the phys path and the locks
-- are left out.
--
-- What is not modelled: of wacom_sys.c the control messages with their retries and
-- wacom_query_tablet_data, the tables of constants per product, the handlers for older kernels in
-- src/2.6.16 (nearly the same text), the copy of hid-core.c, and of the X driver the set-up of
-- ports and devices (terminal and ioctl I/O), the subdivision of the pressure curve, which is
-- floating-point arithmetic, and the parsing of options. Of a change of the mode or the screen,
-- the mapping to coordinates that follows it is not modelled, nor are the options that are written
-- back; the switches to core events and back, of a build for version 0 of the XInput ABI, are left
-- out. The command line tools (src/util) and the Tcl bindings (src/wacomxi) are not modelled: they
-- are terminal and X protocol I/O.
pub mod Prelude
pub mod Input
pub mod Wacom
pub mod Pen
pub mod Bpt
pub mod Graphire
pub mod Tpc
pub mod Intuos
pub mod Irq
pub mod Caps
pub mod Sys
pub mod Xdrv
pub mod Examples
