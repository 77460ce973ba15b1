-- ===== src/Sys/Probe.antt =====
-- `wacom_probe` and `wacom_disconnect` (src/2.6.30/wacom_sys.c): what they allocate and what they give back,
-- on every way through them.
pub mod Shared
pub mod Clean
use linuxwacom.Prelude.{
  ℕ, zero, suc, ◌+◌, ◌-◌, ◌==◌, Bool, true, false, not, ◌&&◌, ◌||◌, leb, List, [], ◌∷◌, ◌++◌,
  Option, none, some, if◌then◌else◌, when, ◌|>◌,
}
use linuxwacom.Wacom.{Kind, rank, pkglen_bbtouch3}
use linuxwacom.Wacom

abbrev pub same_kind : Kind → Kind → Bool
same_kind a b = rank a == rank b

-- `a <= type && type <= b`
abbrev pub is_from : Kind → Kind → Kind → Bool
is_from a b k = leb (rank a) (rank k) && leb (rank k) (rank b)

-- `wacom_udev_list`: the devices, by number, with the counts of their references.
abbrev pub Shared : Type 0
Shared = List (ℕ × ℕ)

-- What is allocated: `struct wacom`, input devices, packet buffers, URBs and groups of LED files.
pub record World : Type 0 where
  pub wacoms : ℕ
  pub inputs : ℕ
  pub buffers : ℕ
  pub urbs : ℕ
  pub groups : ℕ
  pub shared : Shared

-- The answers of the kernel to the calls of a probe, in the order of the calls; `packet_size` is the
-- `wMaxPacketSize` of the endpoint, and `short` whether the packets of the model fit.
pub record Answers : Type 0 where
  pub has_info : Bool
  pub wacom_there : Bool
  pub input_there : Bool
  pub short : Bool
  pub buffer_there : Bool
  pub urb_there : Bool
  pub descriptor_read : Bool
  pub packet_size : ℕ
  pub shared_there : Bool
  pub group_there : Bool
  pub registered : Bool

-- `-EINVAL`, `-ENOMEM`, `-ENODEV`, and the errors of the calls.
pub data Errno : Type 0 where
  einval enomem enodev from_descriptor from_group from_register : Errno

-- `wacom_get_usbdev_data`: the list with one more reference, if the device is there.
unfoldable pub get_usbdev_data : ℕ → Shared → Option Shared
get_usbdev_data dev [] = none
get_usbdev_data dev ((d, refs) ∷ list) =
    let rest = get_usbdev_data dev list in
    if d == dev
    then some ((d, refs + 1) ∷ list)
    else elim rest [ none ↦ none | some list' ↦ some ((d, refs) ∷ list') ]

abbrev pub is_extra : Kind → Bool
is_extra = is_from Wacom.Kind.intuosps Wacom.Kind.intuospl

-- `wacom_add_shared_data`: the list, and the error. The reference that was taken is kept.
unfoldable pub add_shared_data : Kind → Bool → ℕ → Shared → Shared × Option Errno
add_shared_data k there dev list = elim (get_usbdev_data dev list) [
  | none ↦ if there then (list ++ (dev, 1) ∷ [], none) else (list, some enomem)
  | some list' ↦ (list', if is_extra k then some enodev else none)
]

-- `kref_put` with `wacom_release_shared_data`.
unfoldable pub put_shared : ℕ → Shared → Shared
put_shared dev [] = []
put_shared dev ((d, refs) ∷ list) =
    let rest = put_shared dev list in
    if d == dev then (if refs == 1 then list else (d, refs - 1) ∷ list) else (d, refs) ∷ rest

-- The models whose pen and touch share data.
abbrev pub shares : Kind → Bool
shares k =
    same_kind k Wacom.Kind.tabletpc
    || same_kind k Wacom.Kind.tabletpc2fg
    || same_kind k Wacom.Kind.bamboo_pt
    || is_from Wacom.Kind.intuos5s Wacom.Kind.intuospl k

-- The models for which `wacom_initialize_leds` creates a group, and `wacom_destroy_leds` removes one.
abbrev pub has_group : Kind → Bool
has_group k =
    is_from Wacom.Kind.intuos4s Wacom.Kind.intuos4l k
    || same_kind k Wacom.Kind.wacom_21ux2
    || same_kind k Wacom.Kind.wacom_24hd
    || is_from Wacom.Kind.intuos5s Wacom.Kind.intuospl k

abbrev pub loses_group : Kind → Bool
loses_group k =
    same_kind k Wacom.Kind.intuos4
    || same_kind k Wacom.Kind.intuos4l
    || same_kind k Wacom.Kind.wacom_21ux2
    || same_kind k Wacom.Kind.wacom_24hd
    || is_from Wacom.Kind.intuos5s Wacom.Kind.intuospl k

unfoldable pub destroy_leds : Kind → World → World
destroy_leds k = when (loses_group k) (λ v. record v { groups = v.groups - 1 })

-- `wacom_remove_shared_data`; `wacom->shared` is set for the models that share.
unfoldable pub remove_shared_data : Kind → ℕ → World → World
remove_shared_data k dev = when (shares k) (λ v. record v { shared = put_shared dev v.shared })

-- The labels, each with what stands below it.
unfoldable pub fail1 : Answers → World → World
fail1 a w = record w {
  wacoms = if a.wacom_there then w.wacoms - 1 else w.wacoms;
  inputs = if a.input_there then w.inputs - 1 else w.inputs;
}

unfoldable pub fail2 : Answers → World → World
fail2 a w = fail1 a (record w { buffers = w.buffers - 1 })

unfoldable pub fail3 : Answers → World → World
fail3 a w = fail2 a (record w { urbs = w.urbs - 1 })

unfoldable pub fail4 : Answers → Kind → ℕ → World → World
fail4 a k dev w = fail3 a (remove_shared_data k dev w)

unfoldable pub fail5 : Answers → Kind → ℕ → World → World
fail5 a k dev w = fail4 a k dev (destroy_leds k w)

-- `none` is success.
abbrev pub Outcome : Type 0
Outcome = World × Option Errno

-- From the registration of the input device on; the result of the query is not used.
unfoldable pub register_input : Answers → Kind → ℕ → World → Outcome
register_input a k dev w = if a.registered then (w, none) else (fail5 a k dev w, some from_register)

-- `wacom_initialize_leds`
unfoldable pub with_leds : Answers → Kind → ℕ → World → Outcome
with_leds a k dev w =
    if not (has_group k)
    then register_input a k dev w
    else if a.group_there
    then register_input a k dev (record w { groups = w.groups + 1 })
    else (fail4 a k dev w, some from_group)

-- With what `wacom_add_shared_data` has answered.
unfoldable pub after_shared : Answers → Kind → ℕ → World → Shared × Option Errno → Outcome
after_shared a k dev w (list, none) = with_leds a k dev (record w { shared = list })
after_shared a k dev w (list, some e) = (fail3 a (record w { shared = list }), some e)

unfoldable pub with_shared : Answers → Kind → ℕ → World → Outcome
with_shared a k dev w =
    if not (shares k)
    then with_leds a k dev w
    else after_shared a k dev w (add_shared_data k a.shared_there dev w.shared)

-- From the retrieval of the descriptor on.
unfoldable pub with_urb : Answers → Kind → ℕ → World → Outcome
with_urb a k dev w =
    if not a.descriptor_read
    then (fail3 a w, some from_descriptor)
    else if is_from Wacom.Kind.intuos5s Wacom.Kind.intuospl k && a.packet_size == pkglen_bbtouch3
    then (fail2 a w, some enodev)
    else with_shared a k dev w

unfoldable pub with_buffer : Answers → Kind → ℕ → World → Outcome
with_buffer a k dev w =
    if not a.urb_there
    then (fail2 a w, some enomem)
    else with_urb a k dev (record w { urbs = w.urbs + 1 })

unfoldable pub with_input : Answers → Kind → ℕ → World → Outcome
with_input a k dev w =
    if not (a.wacom_there && a.input_there)
    then (fail1 a w, some enomem)
    else if not a.short
    then (fail1 a w, some einval)
    else if not a.buffer_there
    then (fail1 a w, some enomem)
    else with_buffer a k dev (record w { buffers = w.buffers + 1 })

-- `wacom_probe`
unfoldable pub probe : Answers → Kind → ℕ → World → Outcome
probe a k dev w =
    if not a.has_info
    then (w, some einval)
    else with_input a k dev (record w {
      wacoms = if a.wacom_there then w.wacoms + 1 else w.wacoms;
      inputs = if a.input_there then w.inputs + 1 else w.inputs;
    })

-- `wacom_disconnect`
unfoldable pub disconnect : Kind → ℕ → World → World
disconnect k dev w =
    let v = destroy_leds k (record w { inputs = w.inputs - 1 }) in
    let u = remove_shared_data k dev (record v { urbs = v.urbs - 1; buffers = v.buffers - 1 }) in
    record u { wacoms = u.wacoms - 1 }
