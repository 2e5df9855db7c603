-- ===== src/Ps2.antt =====
-- kernel/arch/i386/device.c and kernel/include/kernel/device.h: the PS/2 controller, and the
-- routines of kernel/arch/i386/keyboard.c that send commands to a keyboard. The instructions are
-- those of a Machine, as in Isr. `none` is a device that sends more bytes than the fuel.
pub mod Waits
pub mod Ports
pub mod Config
pub mod Tests
use r_oses.Prelude.{
  ℕ, zero, suc, ◌+◌, ◌-◌, ◌<◌, ◌&&◌, ◌||◌, not, Bool, true, false, Option, none, some, ltb, ◌==◌,
  if◌then◌else◌, u8, u16, bit_and, bit_or, ◌<<<◌,
}
use r_oses.Isr.{Machine}

abbrev pub ps2_data : ℕ
ps2_data = 0x60

abbrev pub ps2_status : ℕ
ps2_status = 0x64

abbrev pub ps2_command : ℕ
ps2_command = 0x64

-- `PS2_port_t`.
abbrev pub ps2_port_one : ℕ
ps2_port_one = 1

abbrev pub ps2_port_two : ℕ
ps2_port_two = 2

-- `PS2_port_one`, `PS2_device_one` and the same of the second port, and what is behind the
-- processor's instructions.
pub record Ps2 (S : Type 0) : Type 0 where
  pub port_one : Bool
  pub device_one : ℕ
  pub port_two : Bool
  pub device_two : ℕ
  pub state : S

-- How `PS2_init` ends: at its end, at the failed self test, or at `abort`.
pub data Init (S : Type 0) : Type 0 where
  done self_test_failed aborted : Ps2 S → Init S

module _ {S : Type 0} (io : Machine S) where
  abbrev pub in_byte : S → ℕ → ℕ × S
  in_byte s port = let (v, s') = io.inb s port in (u8 v, s')

  -- The waiting loops, with the rounds that the timeout leaves: whether the byte may be written or
  -- read.
  pub wait_input : (timeout : ℕ) → S → Bool × S
  wait_input zero s = (false, s)
  wait_input (suc timeout) s =
      let (status, s') = in_byte s ps2_status in
      let rest = wait_input timeout s' in if bit_and status 0x2 == 0x2 then rest else (true, s')

  pub wait_output : (timeout : ℕ) → S → Bool × S
  wait_output zero s = (false, s)
  wait_output (suc timeout) s =
      let (status, s') = in_byte s ps2_status in
      let rest = wait_output timeout s' in if bit_and status 0x1 == 0 then rest else (true, s')

  -- The wait for the controller, and a write to one of its ports.
  abbrev pub write_when_ready : S → (port val : ℕ) → S
  write_when_ready s port val =
      let (ready, s') = wait_input 100000 s in if ready then io.outb s' port val else s'

  pub send_command : Ps2 S → ℕ → Ps2 S
  send_command d val = record d { state = write_when_ready d.state ps2_command val }

  pub send_byte : Ps2 S → (val port : ℕ) → Ps2 S
  unfolding send_command
  send_byte d val port =
      if not d.port_one && (port == ps2_port_one)
      then d
      else if (port == ps2_port_two) && not d.port_two
      then d
      else (let d' = if port == ps2_port_two then send_command d 0xD4 else d in
          record d' { state = write_when_ready d'.state ps2_data val })

  pub recieve_byte : Ps2 S → ℕ × Ps2 S
  recieve_byte d =
      let (ready, s) = wait_output 100000 d.state in
      if ready
      then (let (v, s') = in_byte s ps2_data in (v, record d { state = s' }))
      else (0xFF, record d { state = s })

  pub read_config : Ps2 S → ℕ × Ps2 S
  read_config d = recieve_byte (send_command d 0x20)

  pub write_config : Ps2 S → ℕ → Ps2 S
  write_config d config = send_byte (send_command d 0x60) config ps2_port_one

  -- The answer to a byte that is sent.
  abbrev pub ask : Ps2 S → (val port : ℕ) → ℕ × Ps2 S
  ask d val port = recieve_byte (send_byte d val port)

  -- The bytes up to 0xFF, the last two of them in `id`.
  pub receive_id : (fuel : ℕ) → Ps2 S → (id : ℕ) → Option (ℕ × Ps2 S)
  receive_id zero d id = none
  receive_id (suc fuel) d id =
      let (val, d') = recieve_byte d in
      let rest = receive_id fuel d' (bit_or (u16 (id <<< 8)) val) in
      if val == 0xFF then some (id, d') else rest

  -- The end of `identify_device`, from the loop on.
  abbrev pub finish_identify : (fuel : ℕ) → Ps2 S → (port config : ℕ) → Option (ℕ × Ps2 S)
  finish_identify fuel d port config = elim (receive_id fuel d 0) [
    | none ↦ none
    | some (id, d₁) ↦
        let (a, d₂) = ask d₁ 0xF4 port in
        if a == 0xFA then some (id, write_config d₂ config) else some (0xFFFF, d₂)
  ]

  pub identify_device : (fuel : ℕ) → Ps2 S → (port : ℕ) → Option (ℕ × Ps2 S)
  identify_device fuel d port =
      let (config, d₁) = read_config d in
      let d₂ = write_config d₁ (u8 (bit_and config (0xffffffff - 0x40))) in
      let (a, d₃) = ask d₂ 0xF5 port in
      let (b, d₄) = ask d₃ 0xF2 port in
      if (port == ps2_port_one) && not d₂.port_one || (port == ps2_port_two) && not d₂.port_two
      then some (0xFFFF, d₂)
      else if not (a == 0xFA)
      then some (0xFFFF, d₃)
      else if not (b == 0xFA)
      then some (0xFFFF, d₄)
      else finish_identify fuel d₄ port config

  -- The body of both loops of `keyboard_init` and of that of `keyboard_update_leds`, up to `n` times.
  pub send_pair : (n : ℕ) → Ps2 S → (command val port : ℕ) → Ps2 S
  send_pair zero d command val port = d
  send_pair (suc n) d command val port =
      let (a, d') = recieve_byte (send_byte (send_byte d command port) val port) in
      let rest = send_pair n d' command val port in if a == 0xFA then d' else rest

  abbrev pub keyboard_init : Ps2 S → (port : ℕ) → Ps2 S
  keyboard_init d port = send_pair 3 (send_pair 3 d 0xF0 0x02 port) 0xED 0x00 port

  abbrev pub keyboard_update_leds : Ps2 S → (toggle_keys : ℕ) → Ps2 S
  keyboard_update_leds d toggle_keys = send_pair 3 d 0xED toggle_keys ps2_port_two

  abbrev pub with_device : Ps2 S → (port id : ℕ) → Ps2 S
  with_device d port id =
      if port == ps2_port_one then record d { device_one = id } else record d { device_two = id }

  -- The part of `PS2_init` that is the same for both ports: reset, identify and set up a keyboard.
  pub reset_device : (fuel : ℕ) → Ps2 S → (port : ℕ) → Option (Ps2 S)
  reset_device fuel d port = elim (receive_id fuel (send_byte (with_device d port 0) 0xFF port) 0) [
    | none ↦ none
    | some (id, d₁) ↦
        if (id == 0) || (id == 0xFAFC)
        then some (with_device d₁ port 0xFFFF)
        else elim (identify_device fuel (with_device d₁ port id) port) [
          | none ↦ none
          | some (id', d₂) ↦
              let d₃ = with_device d₂ port id' in
              if ltb 0xFF id' && not (id' == 0xFFFF) then some (keyboard_init d₃ port) else some d₃
        ]
  ]

  -- `PS2_init` from the test for a second port to the end of that test.
  pub init_two : (fuel : ℕ) → Ps2 S → Option (Ps2 S)
  init_two fuel d =
      let (config, d₁) = read_config (send_command d 0xA8) in
      let d₂ = send_command (record d₁ { port_two = true }) 0xA7 in
      let (config', d₃) = read_config d₂ in
      let d₄ = write_config d₃ (bit_and config' 0xDD) in
      let (a, d₅) = recieve_byte (send_command d₄ 0xA9) in
      if not (bit_and config 0x20 == 0)
      then some d₁
      else if not (a == 0)
      then some (record d₅ { port_two = false })
      else reset_device fuel (send_command d₅ 0xA8) ps2_port_two

  -- The bits that the last write of the configuration sets.
  abbrev pub enabled : Ps2 S → ℕ
  enabled d =
      bit_or (bit_or 0x40 (if d.device_one == 0xFFFF then 0 else 0x1))
        (if d.device_two == 0xFFFF then 0 else 0x2)

  pub finish_init : Ps2 S → Ps2 S
  finish_init d =
      let (config, d₁) = read_config d in write_config d₁ (u8 (bit_or config (enabled d₁)))

  -- `PS2_init` from the test of the first port on.
  pub init_one : (fuel : ℕ) → Ps2 S → Option (Init S)
  init_one fuel d =
      let (a, d₁) = recieve_byte (send_command d 0xAB) in
      if not (a == 0)
      then (let d₂ = record d₁ { port_one = false } in
          if not d₂.port_two then some (aborted d₂) else some (done (finish_init d₂)))
      else elim (reset_device fuel (send_command d₁ 0xAE) ps2_port_one) [
        | none ↦ none
        | some d₂ ↦ some (done (finish_init d₂))
      ]

  pub ps2_init : (fuel : ℕ) → Ps2 S → Option (Init S)
  ps2_init fuel d =
      let (flushed, d₁) = recieve_byte (send_command (send_command d 0xAD) 0xA7) in
      let (config, d₂) = read_config d₁ in
      let config = bit_and config 0xAE in
      let (a, d₃) = recieve_byte (send_command (write_config d₂ config) 0xAA) in
      if not (a == 0x55)
      then some (self_test_failed d₃)
      else elim (init_two fuel (write_config d₃ config)) [
        | none ↦ none
        | some d₄ ↦ init_one fuel d₄
      ]
