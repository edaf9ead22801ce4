-- ===== src/Emio/Toy.antt =====
-- A small FPGA that meets the firmware contract of Emio/RegisterFile: requests are answered at the
-- second poll.
use mechatronics_embedded.Base.{
  ◌*◌, ◌/◌, ◌%◌, ℕ, ◌+◌, ◌-◌, ◌<◌, ◌^◌, ◌≡◌, refl, true, false, not, [], bit_and, arith, ◌==◌,
  if◌then◌else◌, Bool-cases, inl, inr,
}
use mechatronics_embedded.Emio.Prom.{ReversesBytes}
use mechatronics_embedded.Machine.{Device, Machine}
use mechatronics_embedded.Emio.{
  reg_input_upper, reg_input_lower, reg_output_upper, reg_output_lower, reg_dir_lower,
}
use mechatronics_embedded.Emio.Word.{word}
use mechatronics_embedded.Emio.Wait.{answers, settled}
use mechatronics_embedded.Emio.Wait.Total.{Prompt}
use mechatronics_embedded.Emio.RegisterFile.{Bus, Firmware, update}

-- `pending` polls pass before a request is done.
pub record Toy : Type 0 where
  pub bus : Bus
  pub addr : ℕ
  pub pending : ℕ

abbrev gpio : ℕ
gpio = 0xe000a000

unfoldable pub status : Toy → ℕ
status t =
    0x10000000
    + (if t.bus.driving then 0x200000 else 0)
    + (if t.bus.requested then (if t.pending == 0 then 0x30000 else 0x10000) else 0)

unfoldable pub toy_in : ℕ → Toy → ℕ × Toy
toy_in a t =
    if a == gpio + reg_input_upper
    then (status t, record t { pending = t.pending - 1 })
    else if a == gpio + reg_input_lower
    then (t.bus.regs t.addr, t)
    else (0, t)

abbrev pub request : ℕ → Toy → Toy
request a t = record t {
  bus = record t.bus {
    requested = true;
    regs = if t.bus.driving then update t.bus.regs a t.bus.offered else t.bus.regs;
  };
  addr = a;
  pending = 1;
}

unfoldable pub toy_out : ℕ → ℕ → Toy → Toy
toy_out a v t =
    if a == gpio + reg_dir_lower
    then record t { bus = record t.bus { driving = not (v == 0) } }
    else if a == gpio + reg_output_lower
    then record t { bus = record t.bus { offered = v } }
    else if a == gpio + reg_output_upper
    then (if v / 65536 % 2 == 1
        then request (v % 65536) t
        else record t { bus = record t.bus { requested = false } })
    else t

unfoldable pub toy : Device Toy
toy = record { gpio_base = gpio; in32 = toy_in; out32 = toy_out }

pub toy_status :
    (t : Toy)
    → t.bus.requested ≡ false
    → bit_and (status t) 0x210000 ≡ (if t.bus.driving then 0x200000 else 0)
unfolding status
toy_status t idle = elim (Bool-cases t.bus.driving) [ inl d ↦ rw (idle, d) | inr d ↦ rw (idle, d) ]

pub toy_request :
    (t : Toy) (a c : ℕ)
    → a < 2 ^ 16
    → c % 2 ≡ 1
    → toy_out (gpio + reg_output_upper) (word a c) t ≡ request a t
unfolding toy_out
toy_request t a c h odd =
    let carries : word a c / 65536 % 2 ≡ 1 = omega arith in
    let names : word a c % 65536 ≡ a = omega arith in rw (carries, names)

pub toy-Prompt : Prompt toy 2
unfolding toy toy_in status answers
toy-Prompt a c t h odd = elim (Bool-cases t.bus.driving) [
  | inl d ↦ rw (toy_request t a c h odd, d)
  | inr d ↦ rw (toy_request t a c h odd, d)
]

unfoldable pub toy_firmware : Firmware toy
unfolding toy toy_in toy_out status answers settled
toy_firmware = record {
  view = λ t. t.bus;
  latency = 2;
  dir_input = λ t. refl;
  dir_output = λ t. refl;
  out_enable = λ t v. refl;
  dir_upper = λ t v. refl;
  out_enable_upper = λ t v. refl;
  offer = λ t v. refl;
  release = λ t. refl;
  status = toy_status;
  status_pure = λ t. refl;
  data_pure = λ t. refl;
  read_answer = λ t a h away idle. rw (toy_request t a 1 h refl, away) (refl, refl, refl);
  write_answer = λ t a h away idle. rw (toy_request t a 5 h refl, away) (refl, refl);
}

abbrev pub start : Machine Toy
start = record {
  hw = record {
    bus = record {
      driving = false;
      requested = false;
      offered = 0;
      regs = λ a. if a == 7 then 42 else 5;
    };
    addr = 0;
    pending = 0;
  };
  input = [];
  trace = [];
}

-- Xil_EndianSwap32 on a word.
abbrev pub swap32 : ℕ → ℕ
swap32 w = w % 256 * 16777216 + w / 256 % 256 * 65536 + w / 65536 % 256 * 256 + w / 16777216

pub swap32_reverses : ReversesBytes swap32
swap32_reverses b0 b1 b2 b3 h0 h1 h2 h3 = omega arith
