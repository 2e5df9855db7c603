-- ===== src/Printf/Runs.antt =====
-- `printf` on whole formats.
use r_oses.Prelude.{
  ℕ, zero, suc, ◌+◌, ◌-◌, ◌≤◌, ◌≡◌, ◌≢◌, ◌∙◌, ap, arith, refl, List, [], ◌∷◌, ◌++◌, length, ltb,
  ◌==◌, false,
}
use r_oses.Printf.{Arg, text_run, literal, next_piece, piece, done, printf_loop, printf, int_max}

-- No byte of the text is a `%`.
abbrev pub IsPlain : List ℕ → Type 0
IsPlain [] = Unit {0}
IsPlain (c ∷ cs) = (c ≢ b'%') × IsPlain cs

pub append-nil : (xs : List ℕ) → xs ++ [] ≡ xs
append-nil [] = refl
append-nil (x ∷ xs) = ap (λ ys. x ∷ ys) (append-nil xs)

pub text_run-plain : (xs : List ℕ) → IsPlain xs → text_run xs ≡ (xs, [])
unfolding text_run
text_run-plain [] p = refl
text_run-plain (x ∷ xs) (ne, p) =
    let test : (x == b'%') ≡ false = ground arith in rw (text_run-plain xs p, test) refl

pub text_run-directive :
    (xs ys : List ℕ) → IsPlain xs → text_run (xs ++ (b'%' ∷ ys)) ≡ (xs, b'%' ∷ ys)
unfolding text_run
text_run-directive [] ys p = refl
text_run-directive (x ∷ xs) ys (ne, p) =
    let test : (x == b'%') ≡ false = ground arith in rw (text_run-directive xs ys p, test) refl

pub next_piece-plain :
    (c : ℕ) (cs : List ℕ) (args : List Arg) → c ≢ b'%' → next_piece c cs args ≡ literal c cs args
unfolding next_piece
next_piece-plain c [] args ne = let test : (c == b'%') ≡ false = ground arith in rw test refl
next_piece-plain c (k ∷ cs) args ne = let test : (c == b'%') ≡ false = ground arith in rw test refl

-- One round of the loop that prints.
pub printf_loop-piece :
    (fuel c : ℕ) (cs : List ℕ) (args args' : List Arg) (written counted : ℕ)
    (out bytes format : List ℕ)
    → next_piece c cs args ≡ piece bytes counted format args'
    → written + counted ≤ int_max
    → printf_loop (suc fuel) (c ∷ cs) args written out
      ≡ printf_loop fuel format args' (written + counted) (out ++ bytes)
unfolding printf_loop
printf_loop-piece fuel c cs args args' written counted out bytes format e h =
    let test : ltb (int_max - written) counted ≡ false = ground arith in
    rw (printf_loop, e, test) refl

pub printf_loop-nil :
    (fuel : ℕ) (args : List Arg) (written : ℕ) (out : List ℕ)
    → printf_loop fuel [] args written out ≡ done written out
unfolding printf_loop
printf_loop-nil zero args written out = refl
printf_loop-nil (suc fuel) args written out = refl

-- A text without a percent sign and of at most INT_MAX bytes is printed as it is, and its length
-- returned.
pub printf_plain :
    (s : List ℕ) (args : List Arg)
    → IsPlain s
    → length s ≤ int_max
    → printf s args ≡ done (length s) s
unfolding printf
printf_plain [] args p h = printf_loop-nil 0 args 0 []
printf_plain (c ∷ cs) args (ne, p) h =
    let run : next_piece c cs args ≡ piece (c ∷ cs) (suc (length cs)) [] args =
      next_piece-plain c cs args ne ∙ rw (text_run-plain cs p) refl in
    printf_loop-piece (length cs) c cs args args 0 (suc (length cs)) [] (c ∷ cs) [] run
      (omega arith)
    ∙ printf_loop-nil (length cs) args (0 + suc (length cs)) (c ∷ cs)
    ∙ ap (λ n. done n (c ∷ cs)) (omega arith)
