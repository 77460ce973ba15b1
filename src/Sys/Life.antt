-- ===== src/Sys/Life.antt =====
-- An interface of a device while it is bound (src/2.6.30/wacom_sys.c): wacom_open, wacom_close, wacom_suspend,
-- wacom_resume and wacom_sys_irq.
pub mod Sleeps
use linuxwacom.Prelude.{ℕ, ◌+◌, ◌≡◌, Bool, true, false, not, ◌&&◌, ◌||◌, if◌then◌else◌}
use linuxwacom.Wacom.{Wac, Packet, InputCore}
use linuxwacom.Irq.{wac_irq}

-- `open` and the URB of `struct wacom`, of which `flying` says that it is submitted, with the references to the
-- interface that the power management counts, and `needs_remote_wakeup`.
pub record Device : Type 0 where
  pub is_open : Bool
  pub flying : Bool
  pub uses : ℕ
  pub wakeup : Bool
  pub wac : Wac

-- A submitted URB is not submitted again; `accepted` is the answer for one that is not.
abbrev pub submits : Bool → Device → Bool
submits accepted d = accepted && not d.flying

-- `wacom_open`, and whether it succeeds; `awake` and `accepted` are the answers of the kernel.
unfoldable pub open_device : Bool → Bool → Device → Device × Bool
open_device awake accepted d =
    if not awake
    then (d, false)
    else if not (submits accepted d)
    then (d, false)
    else (record d { uses = d.uses + 1; flying = true; is_open = true; wakeup = true }, true)

unfoldable pub close : Device → Device
close d = record d { flying = false; is_open = false; wakeup = false }

unfoldable pub suspend : Device → Device
suspend d = record d { flying = false }

-- `wacom_resume` and `wacom_reset_resume`, from the submission on.
unfoldable pub resume : Bool → Device → Device
resume accepted d = if d.is_open then record d { flying = d.flying || accepted } else d

-- `urb->status`: 0, one of the three that end the URB, and the others.
pub data Status : Type 0 where
  success shutting_down failed : Status

-- `wacom_sys_irq`, for a URB that has come back with a packet.
unfoldable pub sys_irq : InputCore → Packet → ℕ → Status → Bool → Device → Device
sys_irq core p len Status.success accepted d = record d {
  flying = accepted;
  wac = wac_irq core p len d.wac;
}
sys_irq core p len Status.shutting_down accepted d = record d { flying = false }
sys_irq core p len Status.failed accepted d = record d { flying = accepted }

-- The calls, in any order: the input core opens a closed device and closes an open one, and a URB comes back that
-- was submitted.
pub data Step (core : InputCore) (d : Device) (e : Device) : Type 0 where
  opens :
      (awake accepted : Bool)
      → d.is_open ≡ false
      → e ≡ (open_device awake accepted d).0
      → Step core d e
  closes : d.is_open ≡ true → e ≡ close d → Step core d e
  suspends : e ≡ suspend d → Step core d e
  resumes : (accepted : Bool) → e ≡ resume accepted d → Step core d e
  completes :
      (p : Packet) (len : ℕ) (status : Status) (accepted : Bool)
      → d.flying ≡ true
      → e ≡ sys_irq core p len status accepted d
      → Step core d e

-- After `wacom_probe`
abbrev pub bound : Wac → Device
bound w = record { is_open = false; flying = false; uses = 0; wakeup = false; wac = w }

pub data Reach (core : InputCore) (w : Wac) : Device → Type 0 where
  start : Reach core w (bound w)
  later : {d e : Device} → Reach core w d → Step core d e → Reach core w e
