-- ===== src/Ps2/Config.antt =====
-- Which ports `PS2_init` of kernel/arch/i386/device.c leaves in use, and what becomes of the
-- configuration byte.
use r_oses.Prelude.{
  ℕ, ◌≡◌, refl, ◌∙◌, ◌⊎◌, Bool, true, false, ◌&&◌, not, Option, none, some, ◌==◌, if◌then◌else◌,
  bit_and, arith, Bool-cases, inl, inr,
}
use r_oses.Isr.{Machine}
use r_oses.Ps2.{
  Ps2, Init, done, aborted, self_test_failed, ps2_port_one, ps2_port_two, send_command, send_byte,
  recieve_byte, read_config, write_config, init_two, init_one, finish_init, ps2_init,
}
use r_oses.Ps2.Ports.{
  SamePorts, Every, no_state, every, and_then, send_command-SamePorts, command-SamePorts,
  read_config-SamePorts, write_config-SamePorts, finish_init-SamePorts, reset_device-Every,
}

module _ {S : Type 0} where
  -- What `PS2_init` leaves, by the way in which it ends.
  pub data Usable : Option (Init S) → Type 0 where
    out_of_fuel : Usable none
    is_done : {d : Ps2 S} → (d.port_one ≡ true) ⊎ (d.port_two ≡ true) → Usable (some (done d))
    is_failed : {d : Ps2 S} → d.port_one ≡ true → Usable (some (self_test_failed d))
    is_aborted : {d : Ps2 S} → d.port_one ≡ false → d.port_two ≡ false → Usable (some (aborted d))

  abbrev OneIs : Ps2 S → Ps2 S → Type 0
  OneIs d d' = d'.port_one ≡ d.port_one

  one_of : {d : Ps2 S} {r : Option (Ps2 S)} → Every (SamePorts d) r → Every (OneIs d) r
  one_of no_state = no_state
  one_of (every p) = every p.one

  module _ (io : Machine S) where
    init_two-OneIs : (fuel : ℕ) (d : Ps2 S) → Every (OneIs d) (init_two io fuel d)
    unfolding init_two
    init_two-OneIs fuel d =
        let (config, d₁) = read_config io (send_command io d 0xA8) in
        let d₂ = send_command io (record d₁ { port_two = true }) 0xA7 in
        let (config', d₃) = read_config io d₂ in
        let d₄ = write_config io d₃ (bit_and config' 0xDD) in
        let (a, d₅) = recieve_byte io (send_command io d₄ 0xA9) in
        let p₁ = and_then (send_command-SamePorts io d 0xA8) (read_config-SamePorts io _) in
        let p₂ = send_command-SamePorts io (record d₁ { port_two = true }) 0xA7 in
        let p₅ = and_then (and_then p₂ (read_config-SamePorts io d₂)) (
          and_then (write_config-SamePorts io d₃ (bit_and config' 0xDD))
            (command-SamePorts io d₄ 0xA9)) in
        elim (Bool-cases (not (bit_and config 0x20 == 0))) [
          | inl e ↦ rw e (every p₁.one)
          | inr e ↦ rw e (elim (Bool-cases (not (a == 0))) [
            | inl n ↦ rw n (every (p₅.one ∙ p₁.one))
            | inr n ↦ rw n (
                move (p₅.one ∙ p₁.one) (send_command-SamePorts io d₅ 0xA8)
                  (reset_device-Every io fuel (send_command io d₅ 0xA8) ps2_port_two))
          ])
        ]
      where
        move :
            {e f : Ps2 S} {r : Option (Ps2 S)}
            → e.port_one ≡ d.port_one
            → SamePorts e f
            → Every (SamePorts f) r
            → Every (OneIs d) r
        move x p no_state = no_state
        move x p (every q) = every (q.one ∙ p.one ∙ x)

    finished :
        (d : Ps2 S)
        → (d.port_one ≡ true) ⊎ (d.port_two ≡ true)
        → Usable (some (done (finish_init io d)))
    finished d (inl e) = is_done (inl ((finish_init-SamePorts io d).one ∙ e))
    finished d (inr e) = is_done (inr ((finish_init-SamePorts io d).two ∙ e))

    without_one :
        (d : Ps2 S)
        → d.port_one ≡ false
        → (b : Bool) → d.port_two ≡ b
        → Usable (if not b then some (aborted d) else some (done (finish_init io d)))
    without_one d e true e' = finished d (inr e')
    without_one d e false e' = is_aborted e e'

    init_one-Usable : (fuel : ℕ) (d : Ps2 S) → d.port_one ≡ true → Usable (init_one io fuel d)
    unfolding init_one
    init_one-Usable fuel d e =
        let (a, d₁) = recieve_byte io (send_command io d 0xAB) in
        let p = command-SamePorts io d 0xAB in
        elim (Bool-cases (not (a == 0))) [
          | inl n ↦ rw n (without_one (record d₁ { port_one = false }) refl d₁.port_two refl)
          | inr n ↦ rw n (
              go _ (and_then p (send_command-SamePorts io d₁ 0xAE))
                (reset_device-Every io fuel (send_command io d₁ 0xAE) ps2_port_one))
        ]
      where
        go :
            {f : Ps2 S} (r : Option (Ps2 S))
            → SamePorts d f
            → Every (SamePorts f) r
            → Usable (elim r [ none ↦ none | some d₂ ↦ some (done (finish_init io d₂)) ])
        go _ p no_state = out_of_fuel
        go _ p (every q) = finished _ (inl (q.one ∙ p.one ∙ e))

    -- From a state in which the first port is in use, PS2_init reaches abort only without a
    -- port, comes to its end only with one, and stops at a failed self test with the first port
    -- in use.
    pub ps2_init-Usable : (fuel : ℕ) (d : Ps2 S) → d.port_one ≡ true → Usable (ps2_init io fuel d)
    unfolding ps2_init
    ps2_init-Usable fuel d e =
        let d₁ = (recieve_byte io (send_command io (send_command io d 0xAD) 0xA7)).1 in
        let (config, d₂) = read_config io d₁ in
        let config = bit_and config 0xAE in
        let (a, d₃) = recieve_byte io (send_command io (write_config io d₂ config) 0xAA) in
        let p₁ =
          and_then (send_command-SamePorts io d 0xAD)
            (command-SamePorts io (send_command io d 0xAD) 0xA7) in
        let p₃ =
          and_then (and_then p₁ (read_config-SamePorts io d₁))
            (and_then (write_config-SamePorts io d₂ config) (command-SamePorts io _ 0xAA)) in
        elim (Bool-cases (not (a == 0x55))) [
          | inl n ↦ rw n (is_failed (p₃.one ∙ e))
          | inr n ↦ rw n (
              go _ (and_then p₃ (write_config-SamePorts io d₃ config))
                (init_two-OneIs fuel (write_config io d₃ config)))
        ]
      where
        go :
            {f : Ps2 S} (r : Option (Ps2 S))
            → SamePorts d f
            → Every (OneIs f) r
            → Usable (elim r [ none ↦ none | some d₄ ↦ init_one io fuel d₄ ])
        go _ p no_state = out_of_fuel
        go _ p (every q) = init_one-Usable fuel _ (q ∙ p.one ∙ e)

    if_true : (b : Bool) (x y : Ps2 S) → b ≡ true → (if b then x else y) ≡ x
    if_true true x y e = refl
    if_true false x y e = absurd cc

    send_byte-lost :
        (d : Ps2 S) (val : ℕ) → d.port_one ≡ false → send_byte io d val ps2_port_one ≡ d
    unfolding send_byte
    send_byte-lost d val e =
        let test : (not d.port_one && (ps2_port_one == ps2_port_one)) ≡ true = ground (arith, e) in
        if_true _ d _ test

    -- Without the first port, the end of PS2_init sends the command to write the configuration
    -- and no value: what it enabled is dropped.
    pub finish_init-lost :
        (d : Ps2 S)
        → d.port_one ≡ false
        → finish_init io d ≡ send_command io (read_config io d).1 0x60
    unfolding finish_init write_config
    finish_init-lost d e =
        let p =
          and_then (read_config-SamePorts io d)
            (send_command-SamePorts io (read_config io d).1 0x60) in
        send_byte-lost (send_command io (read_config io d).1 0x60) _ (p.one ∙ e)
