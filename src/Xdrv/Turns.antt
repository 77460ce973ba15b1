-- ===== src/Xdrv/Turns.antt =====
-- The rotation of the tablet: `rotateOneTool` and `xf86WcmRotateTablet` (src/xdrv/wcmMapping.c), and the
-- rotation parameter of `xf86WcmSetParam` (src/xdrv/wcmXCommand.c).
pub mod Sequence
pub mod Points
use linuxwacom.Prelude.{Bool, true, false, List, [], ◌∷◌, if◌then◌else◌}
use linuxwacom.Prelude.Int.{ℤ, ◌-ℤ◌}
use linuxwacom.Xdrv.Events.{Rotate, none, cw, ccw, half}
use linuxwacom.Xdrv.Areas.{Area}

-- The limits and the rectangle of a tool: `maxX`, `maxY`, `topX`, `topY`, `bottomX` and `bottomY`.
pub record Extent : Type 0 where
  pub max_x : ℤ
  pub max_y : ℤ
  pub top_x : ℤ
  pub top_y : ℤ
  pub bottom_x : ℤ
  pub bottom_y : ℤ

-- A tool: its extent, and the area that `toolarea` points at.
abbrev pub Tool : Type 0
Tool = Extent × Area

-- `area->topX = priv->topX = ...`, the four at once: the area gets the rectangle of the extent.
abbrev pub area_of : Extent → Area
area_of e = record {
  top_x = e.top_x;
  top_y = e.top_y;
  bottom_x = e.bottom_x;
  bottom_y = e.bottom_y;
}

-- The rectangle and the limits that `rotateOneTool` gives a tool.
unfoldable pub turned : Rotate → Extent → Extent
turned none e = e
turned cw e = record {
  max_x = e.max_y;
  max_y = e.max_x;
  top_x = e.top_y;
  bottom_x = e.bottom_y;
  top_y = e.max_x -ℤ e.bottom_x;
  bottom_y = e.max_x -ℤ e.top_x;
}
turned ccw e = record {
  max_x = e.max_y;
  max_y = e.max_x;
  top_x = e.max_y -ℤ e.bottom_y;
  bottom_x = e.max_y -ℤ e.top_y;
  top_y = e.top_x;
  bottom_y = e.bottom_x;
}
turned half e = record {
  max_x = e.max_x;
  max_y = e.max_y;
  top_x = e.max_x -ℤ e.bottom_x;
  bottom_x = e.max_x -ℤ e.top_x;
  top_y = e.max_y -ℤ e.bottom_y;
  bottom_y = e.max_y -ℤ e.top_y;
}

abbrev pub is_none : Rotate → Bool
is_none none = true
is_none cw = false
is_none ccw = false
is_none half = false

-- `rotateOneTool`: without a rotation the `switch` has no case, and the area stays as it is.
unfoldable pub rotate_one_tool : Rotate → Tool → Tool
rotate_one_tool r (e, area) = (turned r e, if is_none r then area else area_of (turned r e))

-- `xf86WcmRotateTablet`, "recover to the unrotated xy-rectangles": the code has already exchanged the
-- limits, and computes with those from before.
unfoldable pub recover : Rotate → Extent → Extent
recover none e = e
recover cw e = record {
  max_x = e.max_y;
  max_y = e.max_x;
  top_x = e.max_y -ℤ e.bottom_y;
  bottom_x = e.max_y -ℤ e.top_y;
  top_y = e.top_x;
  bottom_y = e.bottom_x;
}
recover ccw e = record {
  max_x = e.max_y;
  max_y = e.max_x;
  top_x = e.top_y;
  bottom_x = e.bottom_y;
  top_y = e.max_x -ℤ e.bottom_x;
  bottom_y = e.max_x -ℤ e.top_x;
}
recover half e = record {
  max_x = e.max_x;
  max_y = e.max_y;
  top_x = e.max_x -ℤ e.bottom_x;
  bottom_x = e.max_x -ℤ e.top_x;
  top_y = e.max_y -ℤ e.bottom_y;
  bottom_y = e.max_y -ℤ e.top_y;
}

-- The loop of `xf86WcmRotateTablet` over all the tools.
unfoldable pub rotate_tools : Rotate → Rotate → List Tool → List Tool
rotate_tools old new [] = []
rotate_tools old new ((e, area) ∷ tools) =
    rotate_one_tool new (recover old e, area) ∷ rotate_tools old new tools

-- `wcmRotate` and the tools of the tablet.
pub record Tablet : Type 0 where
  pub rotation : Rotate
  pub tools : List Tool

abbrev pub same_rotate : Rotate → Rotate → Bool
same_rotate none none = true
same_rotate cw cw = true
same_rotate ccw ccw = true
same_rotate half half = true
same_rotate _ _ = false

-- `XWACOM_PARAM_ROTATE` of `xf86WcmSetParam`, of a value in range: a change rotates every tool.
unfoldable pub set_rotation : Rotate → Tablet → Tablet
set_rotation value t =
    if same_rotate t.rotation value
    then t
    else record { rotation = value; tools = rotate_tools t.rotation value t.tools }
