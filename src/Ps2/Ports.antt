-- ===== src/Ps2/Ports.antt =====
-- The routines of kernel/arch/i386/device.c that leave the ports in use as they are.
use r_oses.Prelude.{
  ℕ, zero, suc, ◌-◌, ◌≡◌, refl, ◌∙◌, Bool, true, false, ◌&&◌, ◌||◌, not, Option, none, some, ◌==◌,
  if◌then◌else◌, bit_and, Bool-cases, inl, inr, ltb, u8,
}
use r_oses.Isr.{Machine}
use r_oses.Ps2.{
  Ps2, ps2_port_one, ps2_port_two, wait_output, send_command, send_byte, recieve_byte, read_config,
  write_config, receive_id, finish_identify, identify_device, send_pair, keyboard_init, with_device,
  reset_device, finish_init, ask,
}

module _ {S : Type 0} where
  -- The same ports are in use.
  pub record SamePorts (d d' : Ps2 S) : Type 0 where
    pub one : d'.port_one ≡ d.port_one
    pub two : d'.port_two ≡ d.port_two

  same : (d : Ps2 S) → SamePorts d d
  same d = record { one = refl; two = refl }

  pub and_then : {d e f : Ps2 S} → SamePorts d e → SamePorts e f → SamePorts d f
  and_then p q = record { one = q.one ∙ p.one; two = q.two ∙ p.two }

  -- The same of a result, where there is one.
  pub data Keeps (d : Ps2 S) : Option (ℕ × Ps2 S) → Type 0 where
    nothing : Keeps d none
    kept : {a : ℕ} {d' : Ps2 S} → SamePorts d d' → Keeps d (some (a, d'))

  either :
      (b : Bool) {d x y : Ps2 S} → SamePorts d x → SamePorts d y → SamePorts d (if b then x else y)
  either true p q = p
  either false p q = q

  either_Keeps :
      (b : Bool) {d : Ps2 S} {x y : Option (ℕ × Ps2 S)}
      → Keeps d x
      → Keeps d y
      → Keeps d (if b then x else y)
  either_Keeps true p q = p
  either_Keeps false p q = q

  later : {d e : Ps2 S} {r : Option (ℕ × Ps2 S)} → SamePorts d e → Keeps e r → Keeps d r
  later p nothing = nothing
  later p (kept q) = kept (and_then p q)

  pub data Every (P : Ps2 S → Type 0) : Option (Ps2 S) → Type 0 where
    no_state : Every P none
    every : {d : Ps2 S} → P d → Every P (some d)

  either_Every :
      {P : Ps2 S → Type 0} (b : Bool) {x y : Option (Ps2 S)}
      → Every P x
      → Every P y
      → Every P (if b then x else y)
  either_Every true p q = p
  either_Every false p q = q

  later_Every :
      {d e : Ps2 S} {r : Option (Ps2 S)}
      → SamePorts d e
      → Every (SamePorts e) r
      → Every (SamePorts d) r
  later_Every p no_state = no_state
  later_Every p (every q) = every (and_then p q)

  module _ (io : Machine S) where
    with_device-SamePorts : (d : Ps2 S) (port id : ℕ) → SamePorts d (with_device io d port id)
    with_device-SamePorts d port id =
        either (port == ps2_port_one) (record { one = refl; two = refl })
          (record { one = refl; two = refl })

    pub send_command-SamePorts : (d : Ps2 S) (val : ℕ) → SamePorts d (send_command io d val)
    unfolding send_command
    send_command-SamePorts d val = record { one = refl; two = refl }

    pub send_byte-SamePorts : (d : Ps2 S) (val port : ℕ) → SamePorts d (send_byte io d val port)
    unfolding send_byte
    send_byte-SamePorts d val port =
        let p = either (port == ps2_port_two) {d = d} (send_command-SamePorts d 0xD4) (same d) in
        either (not d.port_one && (port == ps2_port_one)) (same d) (
          either ((port == ps2_port_two) && not d.port_two) (same d)
            (record { one = p.one; two = p.two }))

    pub recieve_byte-SamePorts : (d : Ps2 S) → SamePorts d (recieve_byte io d).1
    unfolding recieve_byte
    recieve_byte-SamePorts d = elim (Bool-cases (wait_output io 100000 d.state).0) [
      | inl e ↦ rw e (record { one = refl; two = refl })
      | inr e ↦ rw e (record { one = refl; two = refl })
    ]

    ask-SamePorts : (d : Ps2 S) (val port : ℕ) → SamePorts d (ask io d val port).1
    ask-SamePorts d val port =
        and_then (send_byte-SamePorts d val port) (recieve_byte-SamePorts (send_byte io d val port))

    pub command-SamePorts :
        (d : Ps2 S) (val : ℕ) → SamePorts d (recieve_byte io (send_command io d val)).1
    command-SamePorts d val =
        and_then (send_command-SamePorts d val) (recieve_byte-SamePorts (send_command io d val))

    pub read_config-SamePorts : (d : Ps2 S) → SamePorts d (read_config io d).1
    unfolding read_config
    read_config-SamePorts d = command-SamePorts d 0x20

    pub write_config-SamePorts : (d : Ps2 S) (config : ℕ) → SamePorts d (write_config io d config)
    unfolding write_config
    write_config-SamePorts d config =
        and_then (send_command-SamePorts d 0x60)
          (send_byte-SamePorts (send_command io d 0x60) config _)

    send_pair-SamePorts :
        (n : ℕ) (d : Ps2 S) (command val port : ℕ) → SamePorts d (send_pair io n d command val port)
    unfolding send_pair
    send_pair-SamePorts zero d command val port = same d
    send_pair-SamePorts (suc n) d command val port =
        let both =
          and_then (send_byte-SamePorts d command port)
            (ask-SamePorts (send_byte io d command port) val port) in
        either ((ask io (send_byte io d command port) val port).0 == 0xFA) both
          (and_then both (send_pair-SamePorts n _ command val port))

    receive_id-Keeps : (fuel : ℕ) (d : Ps2 S) (id : ℕ) → Keeps d (receive_id io fuel d id)
    unfolding receive_id
    receive_id-Keeps zero d id = nothing
    receive_id-Keeps (suc fuel) d id =
        let (val, d') = recieve_byte io d in
        let p = recieve_byte-SamePorts d in
        either_Keeps (val == 0xFF) (kept p) (later p (receive_id-Keeps fuel d' _))

    finish_identify-Keeps :
        (fuel : ℕ) (d : Ps2 S) (port config : ℕ) → Keeps d (finish_identify io fuel d port config)
    finish_identify-Keeps fuel d port config =
        go (receive_id io fuel d 0) (receive_id-Keeps fuel d 0)
      where
        go :
            (r : Option (ℕ × Ps2 S))
            → Keeps d r
            → Keeps d (elim r [
              | none ↦ none
              | some (id, d₁) ↦
                  let (a, d₂) = ask io d₁ 0xF4 port in
                  if a == 0xFA then some (id, write_config io d₂ config) else some (0xFFFF, d₂)
            ])
        go _ nothing = nothing
        go _ (kept {d' = d₁} p) =
            let q = and_then p (ask-SamePorts d₁ 0xF4 port) in
            either_Keeps _ (kept (and_then q (write_config-SamePorts _ config))) (kept q)

    identify_device-Keeps :
        (fuel : ℕ) (d : Ps2 S) (port : ℕ) → Keeps d (identify_device io fuel d port)
    unfolding identify_device
    identify_device-Keeps fuel d port =
        let (config, d₁) = read_config io d in
        let d₂ = write_config io d₁ (u8 (bit_and config (0xffffffff - 0x40))) in
        let (a, d₃) = ask io d₂ 0xF5 port in
        let (b, d₄) = ask io d₃ 0xF2 port in
        let p₂ = and_then (read_config-SamePorts d) (write_config-SamePorts d₁ _) in
        let p₃ = and_then p₂ (ask-SamePorts d₂ 0xF5 port) in
        let p₄ = and_then p₃ (ask-SamePorts d₃ 0xF2 port) in
        let end = later p₄ (finish_identify-Keeps fuel d₄ port config) in
        either_Keeps
          (((port == ps2_port_one) && not d₂.port_one)
            || ((port == ps2_port_two) && not d₂.port_two))
          (kept {a = 0xFFFF} p₂)
          (either_Keeps (not (a == 0xFA)) (kept {a = 0xFFFF} p₃)
            (either_Keeps (not (b == 0xFA)) (kept {a = 0xFFFF} p₄) end))

    pub finish_init-SamePorts : (d : Ps2 S) → SamePorts d (finish_init io d)
    unfolding finish_init
    finish_init-SamePorts d =
        and_then (read_config-SamePorts d) (write_config-SamePorts (read_config io d).1 _)

    -- The end of `reset_device`, when the bytes of the device are read.
    identified :
        (fuel : ℕ) (d₁ : Ps2 S) (port : ℕ) (r : Option (ℕ × Ps2 S))
        → Keeps d₁ r
        → Every (SamePorts d₁) (elim r [
          | none ↦ none
          | some (id', d₂) ↦
              let d₃ = with_device io d₂ port id' in
              if ltb 0xFF id' && not (id' == 0xFFFF)
              then some (keyboard_init io d₃ port)
              else some d₃
        ])
    identified fuel d₁ port _ nothing = no_state
    identified fuel d₁ port _ (kept {a = id'} {d' = d₂} p) =
        let d₃ = with_device io d₂ port id' in
        let q = and_then p (with_device-SamePorts d₂ port id') in
        let k = and_then q (
          and_then (send_pair-SamePorts 3 d₃ 0xF0 0x02 port)
            (send_pair-SamePorts 3 (send_pair io 3 d₃ 0xF0 0x02 port) 0xED 0x00 port)) in
        either_Every (ltb 0xFF id' && not (id' == 0xFFFF)) (every k) (every q)

    pub reset_device-Every :
        (fuel : ℕ) (d : Ps2 S) (port : ℕ) → Every (SamePorts d) (reset_device io fuel d port)
    unfolding reset_device
    reset_device-Every fuel d port =
        let d₀ = with_device io d port 0 in
        let p = and_then (with_device-SamePorts d port 0) (send_byte-SamePorts d₀ 0xFF port) in
        go p (receive_id io fuel (send_byte io d₀ 0xFF port) 0)
          (later p (receive_id-Keeps fuel (send_byte io d₀ 0xFF port) 0))
      where
        go :
            {e : Ps2 S}
            → SamePorts d e
            → (r : Option (ℕ × Ps2 S)) → Keeps d r
            → Every (SamePorts d) (elim r [
              | none ↦ none
              | some (id, d₁) ↦
                  if (id == 0) || (id == 0xFAFC)
                  then some (with_device io d₁ port 0xFFFF)
                  else elim (identify_device io fuel (with_device io d₁ port id) port) [
                    | none ↦ none
                    | some (id', d₂) ↦
                        let d₃ = with_device io d₂ port id' in
                        if ltb 0xFF id' && not (id' == 0xFFFF)
                        then some (keyboard_init io d₃ port)
                        else some d₃
                  ]
            ])
        go p _ nothing = no_state
        go p _ (kept {a = id} {d' = d₁} q) =
            let d₂ = with_device io d₁ port id in
            let r = and_then q (with_device-SamePorts d₁ port id) in
            either_Every ((id == 0) || (id == 0xFAFC))
              (every (and_then q (with_device-SamePorts d₁ port 0xFFFF)))
              (later_Every r (identified fuel d₂ port _ (identify_device-Keeps fuel d₂ port)))
