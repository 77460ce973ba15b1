-- ===== src/Sys/Probe/Shared.antt =====
-- The references of the shared data.
use linuxwacom.Prelude.{
  if-holds, ℕ, ◌+◌, ◌<◌, ◌≡◌, refl, ◌==◌, Bool, true, false, ◌&&◌, ◌||◌, [], ◌∷◌, ◌++◌, Option,
  none, some, if◌then◌else◌, arith, Bool-cases, inl, inr,
}
use linuxwacom.Sys.Probe.{
  Shared, Errno, enodev, enomem, get_usbdev_data, add_shared_data, put_shared, is_extra,
}
use linuxwacom.Wacom.{Kind}

-- Each entry has a reference.
abbrev pub Counted : Shared → Type 0
Counted [] = ◌≡◌ {A = ℕ} 0 0
Counted ((d, refs) ∷ list) = (0 < refs) × Counted list

abbrev pub is_listed : ℕ → Shared → Bool
is_listed dev [] = false
is_listed dev ((d, refs) ∷ list) = d == dev || is_listed dev list

-- The list with one more reference of a device that is listed.
abbrev pub taken : ℕ → Shared → Shared
taken dev [] = []
taken dev ((d, refs) ∷ list) = if d == dev then (d, refs + 1) ∷ list else (d, refs) ∷ taken dev list

get_usbdev_data_lem :
    (dev : ℕ) (list : Shared)
    → get_usbdev_data dev list ≡ (if is_listed dev list then some (taken dev list) else none)
unfolding get_usbdev_data
get_usbdev_data_lem dev [] = refl
get_usbdev_data_lem dev ((d, refs) ∷ list) =
    rw (get_usbdev_data_lem dev list) (elim (Bool-cases (is_listed dev list)) [
      | inl listed ↦ rw listed (ground arith)
      | inr other ↦ rw other (ground arith)
    ])

pub taken-put : (dev : ℕ) (list : Shared) → Counted list → put_shared dev (taken dev list) ≡ list
unfolding put_shared
taken-put dev [] h = refl
taken-put dev ((d, refs) ∷ list) h = ground (arith, h.0, taken-put dev list h.1)

pub append-put :
    (dev : ℕ) (list : Shared)
    → is_listed dev list ≡ false
    → put_shared dev (list ++ (dev, 1) ∷ []) ≡ list
unfolding put_shared
append-put dev [] h = ground arith
append-put dev ((d, refs) ∷ list) h = ground (arith, h, append-put dev list)

pub add_shared_data_lem :
    (k : Kind) (there : Bool) (dev : ℕ) (list : Shared)
    → add_shared_data k there dev list ≡ (
        if is_listed dev list
        then (taken dev list, if is_extra k then some enodev else none)
        else if there
        then (list ++ (dev, 1) ∷ [], none)
        else (list, some enomem))
unfolding add_shared_data
add_shared_data_lem k there dev list =
    rw (get_usbdev_data_lem dev list, add_shared_data)
      (elim (Bool-cases (is_listed dev list)) [
        | inl listed ↦ rw listed refl
        | inr other ↦ rw other refl
      ])

is_extra-no :
    (k : Kind) (dev : ℕ) (list : Shared)
    → is_listed dev list ≡ true
    → (is_extra k && is_listed dev list) ≡ false
    → is_extra k ≡ false
is_extra-no k dev list listed fresh = ground (arith, listed, fresh)

-- What `add_shared_data` answers gives the list back: on success by a put, on an error at once.
abbrev pub Balanced : ℕ → Shared → Shared × Option Errno → Type 0
Balanced dev list (l, none) = put_shared dev l ≡ list
Balanced dev list (l, some e) = l ≡ list

pub add_shared_data-Balanced :
    (k : Kind) (there : Bool) (dev : ℕ) (list : Shared)
    → Counted list
    → (is_extra k && is_listed dev list) ≡ false
    → Balanced dev list (add_shared_data k there dev list)
add_shared_data-Balanced k there dev list counted fresh =
    rw (add_shared_data_lem k there dev list) (
      if-holds (Balanced dev list) (is_listed dev list)
        (λ listed. rw (is_extra-no k dev list listed fresh) (taken-put dev list counted))
        (λ other. if-holds (Balanced dev list) there (λ _. append-put dev list other) (λ _. refl)))
