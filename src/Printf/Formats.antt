-- ===== src/Printf/Formats.antt =====
-- `printf` on a format with directives: what it prints and what it returns.
use mathlib.Core.List.{append_assoc}
use r_oses.Prelude.{
  ℕ, zero, suc, ◌+◌, ◌≤◌, ◌≡◌, ◌∙◌, sym, ap, arith, refl, List, [], ◌∷◌, ◌++◌, length,
  length-append,
}
use r_oses.Printf.{Arg, text_run, next_piece, piece, done, printf_loop, printf, int_max}
use r_oses.Printf.Runs.{
  IsPlain, text_run-plain, text_run-directive, next_piece-plain, printf_loop-piece, printf_loop-nil,
  append-nil,
}
use r_oses.Printf.Items.{Item, letter, parameter, IsItem, most, Shows, next_piece-Shows}

-- A format behind its first text: each directive with the text that follows it.
abbrev pub format_of : List (Item × List ℕ) → List ℕ
format_of [] = []
format_of ((i, t) ∷ fs) = b'%' ∷ letter i ∷ t ++ format_of fs

abbrev pub parameters_of : List (Item × List ℕ) → List Arg
parameters_of [] = []
parameters_of ((i, t) ∷ fs) = parameter i ∷ parameters_of fs

abbrev pub AreItems : List (Item × List ℕ) → Type 0
AreItems [] = Unit {0}
AreItems ((i, t) ∷ fs) = IsItem i × IsPlain t × AreItems fs

abbrev pub most_of : List (Item × List ℕ) → ℕ
most_of [] = 0
most_of ((i, t) ∷ fs) = most i + length t + most_of fs

pub data ShowsAll : List (Item × List ℕ) → List ℕ → ℕ → Type 0 where
  shows_nothing : ShowsAll [] [] 0
  shows_more :
      {i : Item} {t : List ℕ} {fs : List (Item × List ℕ)} {bytes out : List ℕ} {n m : ℕ}
      → Shows i bytes n
      → ShowsAll fs out m
      → ShowsAll ((i, t) ∷ fs) (bytes ++ (t ++ out)) (n + (length t + m))

text_run-format_of :
    (t : List ℕ) (fs : List (Item × List ℕ))
    → IsPlain t
    → text_run (t ++ format_of fs) ≡ (t, format_of fs)
text_run-format_of t [] p = ap text_run (append-nil t) ∙ text_run-plain t p
text_run-format_of t ((i, u) ∷ fs) p = text_run-directive t (letter i ∷ u ++ format_of fs) p

-- The round that prints a text, where there is one.
printf_loop-text :
    (t : List ℕ) (fs : List (Item × List ℕ)) (fuel : ℕ) (args : List Arg) (written : ℕ)
    (out : List ℕ)
    → IsPlain t
    → length t + length (format_of fs) ≤ fuel
    → written + length t ≤ int_max
    → (fuel' : ℕ) × (printf_loop fuel (t ++ format_of fs) args written out
        ≡ printf_loop fuel' (format_of fs) args (written + length t) (out ++ t))
      × (length (format_of fs) ≤ fuel')
printf_loop-text [] fs fuel args written out p enough h =
    let same : written ≡ written + 0 = omega arith in
    (
      fuel,
      ap (λ n. printf_loop fuel (format_of fs) args n out) same
          ∙ ap (λ xs. printf_loop fuel (format_of fs) args (written + 0) xs) (sym (append-nil out)),
      omega arith,
    )
printf_loop-text (c ∷ cs) fs zero args written out p enough h = absurd (omega arith)
printf_loop-text (c ∷ cs) fs (suc fuel) args written out (ne, p) enough h =
    let run : next_piece c (cs ++ format_of fs) args
        ≡ piece (c ∷ cs) (suc (length cs)) (format_of fs) args =
      next_piece-plain c (cs ++ format_of fs) args ne ∙ rw (text_run-format_of cs fs p) refl in
    (
      fuel,
      printf_loop-piece fuel c (cs ++ format_of fs) args args written (suc (length cs)) out (c ∷ cs)
          (format_of fs) run h,
      omega arith,
    )

pub printf_loop-ShowsAll :
    (fs : List (Item × List ℕ)) (fuel : ℕ) (written : ℕ) (out : List ℕ)
    → AreItems fs
    → length (format_of fs) ≤ fuel
    → written + most_of fs ≤ int_max
    → (bytes : List ℕ) × (n : ℕ) × (printf_loop fuel (format_of fs) (parameters_of fs) written out
        ≡ done (written + n) (out ++ bytes))
      × ShowsAll fs bytes n
printf_loop-ShowsAll [] fuel written out v enough h =
    let same : written ≡ written + 0 = omega arith in
    (
      [],
      0,
      printf_loop-nil fuel [] written out
          ∙ ap (λ n. done n out) same
          ∙ ap (λ xs. done (written + 0) xs) (sym (append-nil out)),
      shows_nothing,
    )
printf_loop-ShowsAll ((i, t) ∷ fs) zero written out v enough h = absurd (omega arith)
printf_loop-ShowsAll ((i, t) ∷ fs) (suc fuel) written out (vi, vt, vs) enough h =
    let rest = format_of fs in
    let (bytes, n, e, shows, le) = next_piece-Shows i (t ++ rest) (parameters_of fs) vi in
    let count = length-append t rest in
    let (fuel', e', enough') =
      printf_loop-text t fs fuel (parameters_of fs) (written + n) (out ++ bytes) vt (omega arith)
        (omega arith) in
    let (more, m, e'', all) =
      printf_loop-ShowsAll fs fuel' (written + n + length t) ((out ++ bytes) ++ t) vs enough'
        (omega arith) in
    (
      bytes ++ (t ++ more),
      n + (length t + m),
      printf_loop-piece fuel b'%' (letter i ∷ t ++ rest) (parameter i ∷ parameters_of fs)
            (parameters_of fs) written n out bytes (t ++ rest) e (omega arith)
          ∙ e'
          ∙ e''
          ∙ ap (λ k. done k (((out ++ bytes) ++ t) ++ more)) (omega arith)
          ∙ ap (λ xs. done (written + (n + (length t + m))) xs)
              (append_assoc (out ++ bytes) t more ∙ append_assoc out bytes (t ++ more)),
      shows_more shows all,
    )

-- For a text without a percent sign, directives with parameters of their kinds and a text behind
-- each, printf ends: it prints the texts and the values of the parameters, and returns the
-- number of bytes printed less the two of each 0x, as long as not more than INT_MAX can be
-- counted.
pub printf-ShowsAll :
    (t : List ℕ) (fs : List (Item × List ℕ))
    → IsPlain t
    → AreItems fs
    → length t + most_of fs ≤ int_max
    → (bytes : List ℕ) × (n : ℕ) × (printf (t ++ format_of fs) (parameters_of fs)
        ≡ done (length t + n) (t ++ bytes))
      × ShowsAll fs bytes n
unfolding printf
printf-ShowsAll t fs p v h =
    let count = length-append t (format_of fs) in
    let (fuel, e, enough) =
      printf_loop-text t fs (length (t ++ format_of fs)) (parameters_of fs) 0 [] p (omega arith)
        (omega arith) in
    let (bytes, n, e', all) =
      printf_loop-ShowsAll fs fuel (0 + length t) t v enough (omega arith) in
    (bytes, n, e ∙ e' ∙ ap (λ k. done (k + n) (t ++ bytes)) (omega arith), all)
