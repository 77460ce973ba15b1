-- ===== src/Sys/Probe/Clean.antt =====
-- What is left of a probe that has failed, and of an interface that is gone.
use linuxwacom.Prelude.{
  if-holds, ℕ, ◌+◌, ◌≡◌, refl, ◌∙◌, ◌==◌, Bool, true, false, not, ◌&&◌, Option, none, some,
  if◌then◌else◌, arith,
}
use linuxwacom.Sys.Probe.{
  Shared, World, Answers, Errno, Outcome, has_group, loses_group, shares, is_extra, is_from,
  same_kind, add_shared_data, put_shared, destroy_leds, remove_shared_data, fail1, fail2, fail3,
  fail4, fail5, register_input, with_leds, after_shared, with_shared, with_urb, with_buffer,
  with_input, probe, disconnect,
}
use linuxwacom.Sys.Probe.Shared.{Counted, is_listed, Balanced, add_shared_data-Balanced}
use linuxwacom.Wacom.{Kind, pkglen_bbtouch3}
use linuxwacom.Wacom

-- The ways through a probe that lose something: a touch interface of an Intuos5, the group of the small
-- Intuos4, and an interface more of an Intuos Pro.
abbrev pub is_ignored : Answers → Kind → Bool
is_ignored a k =
    is_from Wacom.Kind.intuos5s Wacom.Kind.intuospl k && a.packet_size == pkglen_bbtouch3

abbrev pub is_small : Kind → Bool
is_small k = same_kind k Wacom.Kind.intuos4s

abbrev pub is_refused : Kind → ℕ → World → Bool
is_refused k dev w = is_extra k && is_listed dev w.shared

-- An outcome whose world is `w`, if the outcome is an error, and which `disconnect` leads back to `w`, if not.
abbrev pub Restores : Kind → ℕ → World → Outcome → Type 0
Restores k dev w (v, some e) = v ≡ w
Restores k dev w (v, none) = disconnect k dev v ≡ w

groups-same : (k : Kind) → is_small k ≡ false → has_group k ≡ loses_group k
groups-same k h = ground (arith, h)

-- The list of shared data when the reference is given back.
abbrev returned : Kind → ℕ → Shared → Shared
returned k dev list = if shares k then put_shared dev list else list

-- The world after the allocations up to the URB and of `g` groups, with a list of shared data.
abbrev allocated : World → ℕ → Shared → World
allocated w g list = record w {
  wacoms = w.wacoms + 1;
  inputs = w.inputs + 1;
  buffers = w.buffers + 1;
  urbs = w.urbs + 1;
  groups = w.groups + g;
  shared = list;
}

abbrev groups_of : Kind → ℕ
groups_of k = if has_group k then 1 else 0

disconnect-allocated :
    (k : Kind) (dev : ℕ) (w : World) (list : Shared)
    → has_group k ≡ loses_group k
    → returned k dev list ≡ w.shared
    → disconnect k dev (allocated w (groups_of k) list) ≡ w
unfolding disconnect destroy_leds remove_shared_data
disconnect-allocated k dev w list same given = ground (arith, same, given)

fail4-allocated :
    (a : Answers) (k : Kind) (dev : ℕ) (w : World) (list : Shared)
    → a.wacom_there ≡ true
    → a.input_there ≡ true
    → returned k dev list ≡ w.shared
    → fail4 a k dev (allocated w 0 list) ≡ w
unfolding fail1 fail2 fail3 fail4 remove_shared_data
fail4-allocated a k dev w list one two given = ground (arith, one, two, given)

destroy_leds-allocated :
    (k : Kind) (w : World) (list : Shared)
    → has_group k ≡ loses_group k
    → destroy_leds k (allocated w (groups_of k) list) ≡ allocated w 0 list
unfolding destroy_leds
destroy_leds-allocated k w list same = ground (arith, same)

-- The group is counted by `groups_of`.
more_groups :
    (k : Kind) (w : World) (list : Shared)
    → has_group k ≡ true
    → record (allocated w 0 list) { groups = w.groups + 0 + 1 } ≡ allocated w (groups_of k) list
more_groups k w list h = ground (arith, h)

no_groups :
    (k : Kind) (w : World) (list : Shared)
    → has_group k ≡ false
    → allocated w 0 list ≡ allocated w (groups_of k) list
no_groups k w list h = ground (arith, h)

alone : (k : Kind) (dev : ℕ) (list : Shared) → shares k ≡ false → returned k dev list ≡ list
alone k dev list h = ground (arith, h)

together :
    (k : Kind) (dev : ℕ) (list : Shared)
    → shares k ≡ true
    → returned k dev list ≡ put_shared dev list
together k dev list h = ground (arith, h)

not-false : (b : Bool) → not b ≡ true → b ≡ false
not-false b h = ground (arith, h)

first-true : (a b : Bool) → not (a && b) ≡ false → a ≡ true
first-true a b h = ground (arith, h)

second-true : (a b : Bool) → not (a && b) ≡ false → b ≡ true
second-true a b h = ground (arith, h)

not-true : (b : Bool) → not b ≡ false → b ≡ true
not-true b h = ground (arith, h)

module _ (a : Answers) (k : Kind) (dev : ℕ) (w : World) (one : a.wacom_there ≡ true)
    (two : a.input_there ≡ true) where
  register_input-Restores :
      (list : Shared)
      → has_group k ≡ loses_group k
      → returned k dev list ≡ w.shared
      → Restores k dev w (register_input a k dev (allocated w (groups_of k) list))
  unfolding register_input fail5
  register_input-Restores list same given =
      if-holds (Restores k dev w) a.registered
        (λ there. disconnect-allocated k dev w list same given)
        (λ failed.
          rw (destroy_leds-allocated k w list same) (fail4-allocated a k dev w list one two given))

  with_leds-Restores :
      (list : Shared)
      → has_group k ≡ loses_group k
      → returned k dev list ≡ w.shared
      → Restores k dev w (with_leds a k dev (allocated w 0 list))
  unfolding with_leds
  with_leds-Restores list same given =
      let rest = register_input-Restores list same given in
      if-holds (Restores k dev w) (not (has_group k))
        (λ h. rw (no_groups k w list (not-false (has_group k) h)) rest)
        (λ h.
          if-holds (Restores k dev w) a.group_there
            (λ there. rw (more_groups k w list (not-true (has_group k) h)) rest)
            (λ failed. fail4-allocated a k dev w list one two given))

  after_shared-Restores :
      has_group k ≡ loses_group k
      → shares k ≡ true
      → (answer : Shared × Option Errno) → Balanced dev w.shared answer
      → Restores k dev w (after_shared a k dev (allocated w 0 w.shared) answer)
  unfolding after_shared fail3 fail2 fail1
  after_shared-Restores same sharing (list, none) given =
      with_leds-Restores list same (together k dev list sharing ∙ given)
  after_shared-Restores same sharing (list, some e) given = ground (arith, one, two, given)

  with_shared-Restores :
      has_group k ≡ loses_group k
      → Counted w.shared
      → is_refused k dev w ≡ false
      → Restores k dev w (with_shared a k dev (allocated w 0 w.shared))
  unfolding with_shared
  with_shared-Restores same counted fresh =
      if-holds (Restores k dev w) (not (shares k))
        (λ h. with_leds-Restores w.shared same (alone k dev w.shared (not-false (shares k) h)))
        (λ h.
          after_shared-Restores same (not-true (shares k) h)
            (add_shared_data k a.shared_there dev w.shared)
            (add_shared_data-Balanced k a.shared_there dev w.shared counted fresh))

  -- The world after the allocations of `with_input` and `with_buffer`.
  with_urb-Restores :
      is_ignored a k ≡ false
      → has_group k ≡ loses_group k
      → Counted w.shared
      → is_refused k dev w ≡ false
      → Restores k dev w (with_urb a k dev (allocated w 0 w.shared))
  unfolding with_urb fail3 fail2 fail1
  with_urb-Restores wanted same counted fresh =
      if-holds (Restores k dev w) (not a.descriptor_read) (λ _. ground (arith, one, two))
        (λ _.
          if-holds (Restores k dev w) (is_ignored a k) (λ h. ground (arith, h, wanted))
            (λ _. with_shared-Restores same counted fresh))

  with_buffer-Restores :
      (v : World)
      → record v { urbs = v.urbs + 1 } ≡ allocated w 0 w.shared
      → fail2 a v ≡ w
      → is_ignored a k ≡ false
      → has_group k ≡ loses_group k
      → Counted w.shared
      → is_refused k dev w ≡ false
      → Restores k dev w (with_buffer a k dev v)
  unfolding with_buffer
  with_buffer-Restores v next back wanted same counted fresh =
      let rest = with_urb-Restores wanted same counted fresh in
      if-holds (Restores k dev w) (not a.urb_there) (λ _. back) (λ _. rw next rest)

-- The world after the first two allocations, and after the third.
abbrev opened : Answers → World → World
opened a w = record w {
  wacoms = if a.wacom_there then w.wacoms + 1 else w.wacoms;
  inputs = if a.input_there then w.inputs + 1 else w.inputs;
}

opened-fail1 : (a : Answers) (w : World) → fail1 a (opened a w) ≡ w
unfolding fail1
opened-fail1 a w = ground arith

opened-fail2 :
    (a : Answers) (w : World) → fail2 a (record (opened a w) { buffers = w.buffers + 1 }) ≡ w
unfolding fail2 fail1
opened-fail2 a w = ground arith

opened-allocated :
    (a : Answers) (w : World)
    → a.wacom_there ≡ true
    → a.input_there ≡ true
    → record (opened a w) { buffers = w.buffers + 1; urbs = w.urbs + 1 } ≡ allocated w 0 w.shared
opened-allocated a w one two = ground (arith, one, two)

with_input-Restores :
    (a : Answers) (k : Kind) (dev : ℕ) (w : World)
    → is_ignored a k ≡ false
    → has_group k ≡ loses_group k
    → Counted w.shared
    → is_refused k dev w ≡ false
    → Restores k dev w (with_input a k dev (opened a w))
unfolding with_input
with_input-Restores a k dev w wanted same counted fresh =
    let back = opened-fail1 a w in
    if-holds (Restores k dev w) (not (a.wacom_there && a.input_there)) (λ _. back)
      (λ both.
        if-holds (Restores k dev w) (not a.short) (λ _. back)
          (λ _.
            if-holds (Restores k dev w) (not a.buffer_there) (λ _. back)
              (λ _.
                let one = first-true a.wacom_there a.input_there both in
                let two = second-true a.wacom_there a.input_there both in
                with_buffer-Restores a k dev w one two
                  (record (opened a w) { buffers = w.buffers + 1 }) (opened-allocated a w one two)
                  (opened-fail2 a w) wanted same counted fresh)))

-- Whatever the kernel answers, a probe that fails leaves the world as it was before, and `disconnect` right after
-- one that succeeds leads back to it, if the interface is not one of the three that lose something and no entry of
-- the shared list has a count of 0.
pub probe-Restores :
    (a : Answers) (k : Kind) (dev : ℕ) (w : World)
    → is_small k ≡ false
    → is_ignored a k ≡ false
    → is_refused k dev w ≡ false
    → Counted w.shared
    → Restores k dev w (probe a k dev w)
unfolding probe
probe-Restores a k dev w large wanted fresh counted =
    if-holds (Restores k dev w) (not a.has_info) (λ _. refl)
      (λ _. with_input-Restores a k dev w wanted (groups-same k large) counted fresh)
