-- ===== src/Sys/Leds.antt =====
-- The LEDs of a tablet (src/2.6.30/wacom_sys.c): the values of wacom_initialize_leds, the report of
-- wacom_led_control, and wacom_led_select_store.
pub mod Selected
use linuxwacom.Prelude.{
  ℕ, ◌+◌, ◌*◌, ◌/◌, ◌%◌, ◌^◌, ◌-◌, bit_and, bit_or, ◌==◌, ◌||◌, List, [], ◌∷◌, if◌then◌else◌,
}
use linuxwacom.Wacom.{Kind}
use linuxwacom.Sys.Probe.{same_kind, is_from}
use linuxwacom.Wacom

-- `struct wacom_led`, each a byte.
pub record Led : Type 0 where
  pub select : ℕ → ℕ
  pub llv : ℕ
  pub hlv : ℕ

-- The values that wacom_initialize_leds sets.
unfoldable pub initial : Kind → Led → Led
initial k led =
    if is_from Wacom.Kind.intuos4s Wacom.Kind.intuos4l k
    then record { select = λ i. 0; llv = 10; hlv = 20 }
    else if same_kind k Wacom.Kind.wacom_21ux2 || same_kind k Wacom.Kind.wacom_24hd
    then record { select = λ i. 0; llv = 0; hlv = 0 }
    else if is_from Wacom.Kind.intuos5s Wacom.Kind.intuospl k
    then record { select = λ i. 0; llv = 32; hlv = 0 }
    else led

-- `(((wacom->led.llv & 0x60) >> 5) - 1) & 0x03`, with the wrap of the subtraction.
unfoldable pub ring_lum : ℕ → ℕ
ring_lum llv = bit_and (bit_and llv 0x60 / 32 + (2 ^ 32 - 1)) 0x03

-- `led`
unfoldable pub led_byte : Kind → Led → ℕ
led_byte k led =
    let one = bit_or (led.select 0) 0x4 in
    if same_kind k Wacom.Kind.wacom_21ux2 || same_kind k Wacom.Kind.wacom_24hd
    then bit_or one (bit_or (led.select 1 * 2 ^ 4) 0x40)
    else one

-- The nine bytes that wacom_led_control sends.
unfoldable pub led_control : Kind → Led → List ℕ
led_control k led =
    if is_from Wacom.Kind.intuos5s Wacom.Kind.intuospl k
    then 0x20
      ∷ bit_or (ring_lum led.llv * 2 ^ 2) (bit_and (led.select 0) 0x03)
      ∷ 0
      ∷ 0
      ∷ 0
      ∷ 0
      ∷ 0
      ∷ 0
      ∷ 0
      ∷ []
    else 0x20 ∷ led_byte k led % 256 ∷ led.llv ∷ led.hlv ∷ 0 ∷ 0 ∷ 0 ∷ 0 ∷ 0 ∷ []

-- `id = id * 10 + buf[i] - '0'`, of a byte, with the characters as bytes.
unfoldable pub read_id : ℕ → List ℕ → ℕ
read_id id [] = id
read_id id (c ∷ cs) = read_id ((id * 10 + c + (256 - 48)) % 256) cs

-- wacom_led_select_store, up to the report.
unfoldable pub select_store : ℕ → List ℕ → Led → Led
select_store set cs led = record led {
  select = λ i. if i == set then bit_and (read_id 0 cs) 0x3 else led.select i;
}
