-- ===== src/Ps2/Waits.antt =====
-- The waiting loops of kernel/arch/i386/device.c: what they wait for, and for how long.
use r_oses.Prelude.{
  ℕ, zero, suc, ◌≤◌, ◌<◌, ◌≡◌, refl, arith, Bool, true, false, ◌==◌, bit_and, dec_lt, Bool-cases,
  inl, inr,
}
use r_oses.Isr.{Machine}
use r_oses.Ps2.{
  Ps2, in_byte, ps2_status, ps2_command, wait_input, wait_output, send_command, recieve_byte,
}

-- Whether a status says that the input buffer is full, and that the output buffer is empty.
abbrev pub is_full : ℕ → Bool
is_full status = bit_and status 0x2 == 0x2

abbrev pub is_empty : ℕ → Bool
is_empty status = bit_and status 0x1 == 0

module _ {S : Type 0} (io : Machine S) where
  -- The state after `n` reads of the status, and the value of the read number `n`, from 0 on.
  abbrev pub reads : ℕ → S → S
  reads zero s = s
  reads (suc n) s = reads n (in_byte io s ps2_status).1

  abbrev pub status : ℕ → S → ℕ
  status zero s = (in_byte io s ps2_status).0
  status (suc n) s = status n (in_byte io s ps2_status).1

  -- The end of a loop that goes on while `waits` holds of the status.
  pub data Waited (waits : ℕ → Bool) (timeout : ℕ) (s : S) : Bool × S → Type 0 where
    ready :
        (k : ℕ)
        → k < timeout
        → ((i : ℕ) → i < k → waits (status i s) ≡ true)
        → waits (status k s) ≡ false
        → Waited waits timeout s (true, reads (suc k) s)
    timed_out :
        ((i : ℕ) → i < timeout → waits (status i s) ≡ true)
        → Waited waits timeout s (false, reads timeout s)

  all_before :
      (waits : ℕ → Bool) (k : ℕ) (s : S)
      → waits (status 0 s) ≡ true
      → ((i : ℕ) → i < k → waits (status i (in_byte io s ps2_status).1) ≡ true)
      → (i : ℕ) → i < suc k
      → waits (status i s) ≡ true
  all_before waits k s e h zero lt = e
  all_before waits k s e h (suc i) lt = h i (omega arith)

  -- One more round in front of a loop that has ended.
  one_more :
      (waits : ℕ → Bool) (timeout : ℕ) (s : S) (r : Bool × S)
      → waits (status 0 s) ≡ true
      → Waited waits timeout (in_byte io s ps2_status).1 r
      → Waited waits (suc timeout) s r
  one_more waits timeout s _ e (ready k lt h n) =
      ready (suc k) (omega arith) (all_before waits k s e h) n
  one_more waits timeout s _ e (timed_out h) = timed_out (all_before waits timeout s e h)

  pub wait_input-Waited : (timeout : ℕ) (s : S) → Waited is_full timeout s (wait_input io timeout s)
  unfolding wait_input
  wait_input-Waited zero s = timed_out (λ i lt. absurd (omega arith))
  wait_input-Waited (suc timeout) s = elim (Bool-cases (is_full (status 0 s))) [
    | inl e ↦
        rw e
          (one_more is_full timeout s _ e (wait_input-Waited timeout (in_byte io s ps2_status).1))
    | inr e ↦ rw e (ready 0 (omega arith) (λ i lt. absurd (omega arith)) e)
  ]

  pub wait_output-Waited :
      (timeout : ℕ) (s : S) → Waited is_empty timeout s (wait_output io timeout s)
  unfolding wait_output
  wait_output-Waited zero s = timed_out (λ i lt. absurd (omega arith))
  wait_output-Waited (suc timeout) s = elim (Bool-cases (is_empty (status 0 s))) [
    | inl e ↦
        rw e
          (one_more is_empty timeout s _ e (wait_output-Waited timeout (in_byte io s ps2_status).1))
    | inr e ↦ rw e (ready 0 (omega arith) (λ i lt. absurd (omega arith)) e)
  ]

  -- A status that ends the loop bounds its rounds.
  ends_by :
      (waits : ℕ → Bool) (timeout k : ℕ) (s : S) (r : Bool × S)
      → k < timeout
      → waits (status k s) ≡ false
      → Waited waits timeout s r
      → (j : ℕ) × (j ≤ k) × (r ≡ (true, reads (suc j) s))
  ends_by waits timeout k s _ lt free (ready j _ before _) = elim (dec_lt k j) [
    | yes less ↦ absurd (cc (before k less, free))
    | no more ↦ (j, omega arith, refl)
  ]
  ends_by waits timeout k s _ lt free (timed_out full) = absurd (cc (full k lt, free))

  never_ends :
      (waits : ℕ → Bool) (timeout : ℕ) (s : S) (r : Bool × S)
      → ((i : ℕ) → i < timeout → waits (status i s) ≡ true)
      → Waited waits timeout s r
      → r ≡ (false, reads timeout s)
  never_ends waits timeout s _ full (ready j lt _ free) = absurd (cc (full j lt, free))
  never_ends waits timeout s _ full (timed_out _) = refl

  -- Where the input buffer is not full at the read number k of the status, k below 100000,
  -- send_command writes its command, after at most k + 1 reads.
  pub send_command-sends :
      (d : Ps2 S) (val k : ℕ)
      → k < 100000
      → is_full (status k d.state) ≡ false
      → (j : ℕ) × (j ≤ k)
        × (send_command io d val
            ≡ record d { state = io.outb (reads (suc j) d.state) ps2_command val })
  unfolding send_command
  send_command-sends d val k lt free =
      let (j, le, e) =
        ends_by is_full 100000 k d.state _ lt free (wait_input-Waited 100000 d.state) in
      (j, le, rw e refl)

  pub send_command-gives_up :
      (d : Ps2 S) (val : ℕ)
      → ((i : ℕ) → i < 100000 → is_full (status i d.state) ≡ true)
      → send_command io d val ≡ record d { state = reads 100000 d.state }
  unfolding send_command
  send_command-gives_up d val full =
      rw (never_ends is_full 100000 d.state _ full (wait_input-Waited 100000 d.state)) refl

  pub recieve_byte-gives_up :
      (d : Ps2 S)
      → ((i : ℕ) → i < 100000 → is_empty (status i d.state) ≡ true)
      → recieve_byte io d ≡ (0xFF, record d { state = reads 100000 d.state })
  unfolding recieve_byte
  recieve_byte-gives_up d empty =
      rw (never_ends is_empty 100000 d.state _ empty (wait_output-Waited 100000 d.state)) refl
