-- ===== src/Ps2/Tests.antt =====
-- Runs of kernel/arch/i386/device.c on a controller that always gives the same byte.
use r_oses.Prelude.{ℕ, zero, suc, ◌≤◌, ◌≡◌, refl, arith, true, false}
use r_oses.Isr.{Machine}
use r_oses.Ps2.{Ps2, send_command, recieve_byte, read_config, finish_init, ps2_init, ps2_command}
use r_oses.Ps2.Waits.{
  is_full, is_empty, reads, status, send_command-sends, send_command-gives_up,
  recieve_byte-gives_up,
}
use r_oses.Ps2.Config.{Usable, ps2_init-Usable, finish_init-lost}

-- The state counts the instructions.
abbrev pub constant : ℕ → Machine ℕ
constant v = record {
  outb = λ s port value. suc s;
  inb = λ s port. (v, suc s);
  cli = λ s. suc s;
  sti = λ s. suc s;
  lidt = λ s limit base. suc s;
}

abbrev pub both_ports : Ps2 ℕ
both_ports = record { port_one = true; device_one = 0; port_two = true; device_two = 0; state = 0 }

abbrev second_only : Ps2 ℕ
second_only = record both_ports { port_one = false }

send_command-sends_example :
    (j : ℕ) × (j ≤ 0)
    × (send_command (constant 0) both_ports 0xAD ≡ record both_ports {
      state = (constant 0).outb (reads (constant 0) (suc j) 0) ps2_command 0xAD;
    })
send_command-sends_example = send_command-sends (constant 0) both_ports 0xAD 0 (omega arith) refl

always_full : (i s : ℕ) → is_full (status (constant 2) i s) ≡ true
always_full zero s = refl
always_full (suc i) s = always_full i (suc s)

always_empty : (i s : ℕ) → is_empty (status (constant 2) i s) ≡ true
always_empty zero s = refl
always_empty (suc i) s = always_empty i (suc s)

send_command-gives_up_example :
    send_command (constant 2) both_ports 0xAD
    ≡ record both_ports { state = reads (constant 2) 100000 0 }
send_command-gives_up_example =
    send_command-gives_up (constant 2) both_ports 0xAD (λ i lt. always_full i 0)

recieve_byte-gives_up_example :
    recieve_byte (constant 2) both_ports
    ≡ (0xFF, record both_ports { state = reads (constant 2) 100000 0 })
recieve_byte-gives_up_example =
    recieve_byte-gives_up (constant 2) both_ports (λ i lt. always_empty i 0)

ps2_init-Usable_example : Usable (ps2_init (constant 0x55) 8 both_ports)
ps2_init-Usable_example = ps2_init-Usable (constant 0x55) 8 both_ports refl

finish_init-lost_example :
    finish_init (constant 0x55) second_only
    ≡ send_command (constant 0x55) (read_config (constant 0x55) second_only).1 0x60
finish_init-lost_example = finish_init-lost (constant 0x55) second_only refl
