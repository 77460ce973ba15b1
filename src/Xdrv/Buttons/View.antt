-- ===== src/Xdrv/Buttons/View.antt =====
-- What the calls of `sendAButton` make of the buttons: a view of which are down.
use linuxwacom.Prelude.{
  ℕ, zero, suc, ◌+◌, ◌≤◌, ◌<◌, Bool, true, false, not, ◌&&◌, ◌||◌, List, [], ◌∷◌, ◌++◌,
  if◌then◌else◌, nonzero, ◌≡◌, refl, arith, update,
}
use linuxwacom.Xdrv.Buttons.{Call, bit, differs, changes, presses, is_empty, tip_changes, lifts}

-- The buttons that are down after a list of calls.
unfoldable pub view : List Call → (ℕ → Bool) → ℕ → Bool
view [] s = s
view ((i, v) ∷ cs) s = view cs (update s i (nonzero v))

abbrev pub pressed : ℕ → ℕ → Bool
pressed buttons i = nonzero (bit i buttons)

-- Indices below `i` are not touched, and those from `i` to `i + n` follow the new state.
pub view-changes :
    (n i old new j : ℕ) (s : ℕ → Bool)
    → (j < i → view (changes n i old new) s j ≡ s j)
      × (i ≤ j → j < i + n → s j ≡ pressed old j → view (changes n i old new) s j ≡ pressed new j)
unfolding view changes
view-changes zero i old new j s = (λ h. refl, λ h k e. absurd (omega arith))
view-changes (suc n) i old new j s =
    let s' = update s i (pressed new i) in
    ground (arith, view-changes n (i + 1) old new j s, view-changes n (i + 1) old new j s')

pub view-append : (cs ds : List Call) (s : ℕ → Bool) → view (cs ++ ds) s ≡ view ds (view cs s)
unfolding view
view-append [] ds s = refl
view-append ((i, v) ∷ cs) ds s = view-append cs ds (update s i (nonzero v))

pub view-presses :
    (n i new j : ℕ) (s : ℕ → Bool)
    → (j < i → view (presses n i new) s j ≡ s j)
      × (i ≤ j → j < i + n → s j ≡ false → view (presses n i new) s j ≡ pressed new j)
unfolding view presses
view-presses zero i new j s = (λ h. refl, λ h k e. absurd (omega arith))
view-presses (suc n) i new j s =
    ground (arith, view-presses n (i + 1) new j s, view-presses n (i + 1) new j (update s i true))

-- With no button pressed there is no call.
pub presses-empty :
    (n i new j : ℕ) → is_empty (presses n i new) ≡ true → i ≤ j → j < i + n → pressed new j ≡ false
unfolding presses
presses-empty zero i new j e h k = absurd (omega arith)
presses-empty (suc n) i new j e h k = ground (arith, presses-empty n (i + 1) new j)

pub view-lifts :
    (n i old new j : ℕ) (s : ℕ → Bool)
    → (j < i → view (lifts n i old new) s j ≡ s j)
      × (i ≤ j → j < i + n → s j ≡ pressed old j → view (lifts n i old new) s j ≡ false)
unfolding view lifts
view-lifts zero i old new j s = (λ h. refl, λ h k e. absurd (omega arith))
view-lifts (suc n) i old new j s =
    ground
      (arith, view-lifts n (i + 1) old new j s, view-lifts n (i + 1) old new j (update s i false))

pub view-tip_changes :
    (n i old new : ℕ) (one bsent : Bool) (j : ℕ) (s : ℕ → Bool)
    → 1 ≤ i
    → s 0 ≡ one
    → let (cs, one') = tip_changes n i old new one bsent in
      (view cs s 0 ≡ one')
      × (1 ≤ j → j < i → view cs s j ≡ s j)
      × (i ≤ j → j < i + n → s j ≡ pressed old j → view cs s j ≡ pressed new j)
unfolding view tip_changes
view-tip_changes zero i old new one bsent j s hi h0 =
    (h0, λ h k. refl, λ h k e. absurd (omega arith))
view-tip_changes (suc n) i old new one bsent j s hi h0 =
    let lift = differs i old new && one && not bsent in
    let s0 = if lift then update s 0 false else s in
    let s1 = if differs i old new then update s0 i (pressed new i) else s0 in
    ground (arith, view-tip_changes n (i + 1) old new (one && not lift) (bsent || lift) j s1)
