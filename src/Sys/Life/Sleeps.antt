-- ===== src/Sys/Life/Sleeps.antt =====
-- A device that nobody has open is silent.
use linuxwacom.Prelude.{ℕ, ◌≡◌, ◌≤◌, refl, ap, ◌∙◌, sym, Bool, true, false, arith}
use linuxwacom.Wacom.{Wac, Packet, InputCore}
use linuxwacom.Sys.Life.{
  Device, Status, Step, opens, closes, suspends, resumes, completes, Reach, start, later,
  open_device, close, suspend, resume, sys_irq, bound,
}

-- The URB is submitted for an open device only, which also is the one that wakes the host.
pub record IsAwake (d : Device) : Type 0 where
  pub opened : d.flying ≡ true → d.is_open ≡ true
  pub wakes : d.wakeup ≡ d.is_open

bound-IsAwake : (w : Wac) → IsAwake (bound w)
bound-IsAwake w = record { opened = λ h. ground (arith, h); wakes = refl }

sys_irq-is_open :
    (core : InputCore) (p : Packet) (len : ℕ) (status : Status) (accepted : Bool) (d : Device)
    → ((sys_irq core p len status accepted d).is_open ≡ d.is_open)
      × ((sys_irq core p len status accepted d).wakeup ≡ d.wakeup)
      × ((sys_irq core p len status accepted d).uses ≡ d.uses)
unfolding sys_irq
sys_irq-is_open core p len Status.success accepted d = (refl, refl, refl)
sys_irq-is_open core p len Status.shutting_down accepted d = (refl, refl, refl)
sys_irq-is_open core p len Status.failed accepted d = (refl, refl, refl)

Step-IsAwake : (core : InputCore) (d e : Device) → Step core d e → IsAwake d → IsAwake e
unfolding open_device close suspend resume sys_irq
Step-IsAwake core d e (opens awake accepted closed eq) h = record {
  opened = λ f. ground (arith, eq, h.opened);
  wakes = ground (arith, eq, h.wakes);
}
Step-IsAwake core d e (closes _ eq) h = record {
  opened = λ f. ground (arith, eq, f);
  wakes = ground (arith, eq);
}
Step-IsAwake core d e (suspends eq) h = record {
  opened = λ f. ground (arith, eq, f);
  wakes = ground (arith, eq, h.wakes);
}
Step-IsAwake core d e (resumes accepted eq) h = record {
  opened = λ f. ground (arith, eq, f, h.opened);
  wakes = ground (arith, eq, h.wakes);
}
Step-IsAwake core d e (completes p len status accepted flying eq) h =
    let kept = sys_irq-is_open core p len status accepted d in
    record {
      opened = λ _. ap (λ x. x.is_open) eq ∙ kept.0 ∙ h.opened flying;
      wakes = ap (λ x. x.wakeup) eq ∙ kept.1 ∙ h.wakes ∙ sym kept.0 ∙ ap (λ x. x.is_open) (sym eq);
    }

-- However the calls come: the URB is submitted only while the device is open.
pub Reach-IsAwake : (core : InputCore) (w : Wac) (d : Device) → Reach core w d → IsAwake d
Reach-IsAwake core w _ start = bound-IsAwake w
Reach-IsAwake core w _ (later {d} {e} r s) = Step-IsAwake core d e s (Reach-IsAwake core w d r)

-- Whatever happened before: while the device is closed, nothing that happens gives the handlers a packet or posts
-- an event.
pub closed-quiet :
    (core : InputCore) (w : Wac) (d e : Device)
    → Reach core w d
    → d.is_open ≡ false
    → Step core d e
    → e.wac ≡ d.wac
unfolding open_device close suspend resume
closed-quiet core w d e r closed (opens awake accepted _ eq) = ground (arith, eq)
closed-quiet core w d e r closed (closes _ eq) = ground (arith, eq)
closed-quiet core w d e r closed (suspends eq) = ground (arith, eq)
closed-quiet core w d e r closed (resumes accepted eq) = ground (arith, eq)
closed-quiet core w d e r closed (completes p len status accepted flying eq) =
    let is_open = (Reach-IsAwake core w d r).opened flying in ground (arith, is_open, closed)

-- No step takes back the reference of the power management that an opening has taken.
Step-uses : (core : InputCore) (d e : Device) → Step core d e → d.uses ≤ e.uses
unfolding open_device close suspend resume
Step-uses core d e (opens awake accepted _ eq) = ground (arith, eq)
Step-uses core d e (closes _ eq) = ground (arith, eq)
Step-uses core d e (suspends eq) = ground (arith, eq)
Step-uses core d e (resumes accepted eq) = ground (arith, eq)
Step-uses core d e (completes p len status accepted flying eq) =
    rw (eq, (sys_irq-is_open core p len status accepted d).2) (omega arith)
