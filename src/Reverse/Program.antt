-- ===== src/Reverse/Program.antt =====
-- `main` of initial-reverse/reverse.c with all numbers of arguments, and the opening of the files. The
-- files are a parameter; the output can be opened and is another file than the input. The standard
-- input is a file too, since the code seeks in it. malloc does not fail.
use ostep_projects_finish.Common.{
  ℕ, zero, suc, ◌+◌, ◌<◌, ◌≡◌, refl, ap, ◌∙◌, Bool, true, false, Option, none, some, List, [], ◌∷◌,
  ◌++◌, All, arith, length, ltb, ◌==◌, ne→==, if◌then◌else◌, codes,
}
use ostep_projects_finish.Common.Sift.{rev_onto}
use ostep_projects_finish.Common.Text.{Bytes}
use ostep_projects_finish.Reverse.{Calls, base_len, compare_names, main, reverse}
use ostep_projects_finish.Reverse.Lines.{HasNoNewline, join, reverse-newline}

-- What is printed, what the output file holds if it has been opened, and the exit status.
pub record Ended : Type 0 where
  pub stdout : Bytes
  pub written : Option Bytes
  pub stderr : Bytes
  pub status : ℕ

abbrev pub cannot_open : Bytes → Ended
cannot_open input = record {
  stdout = [];
  written = none;
  stderr = codes "reverse: cannot open file " ++ (codes "'" ++ (input ++ codes "'\n"));
  status = 1;
}

-- The end of the loop over the names: its message, or `return 0`.
abbrev pub finish : Bool → Option Bytes → Ended
finish true written = record {
  stdout = [];
  written = written;
  stderr = codes "reverse: input and output file must differ\n";
  status = 1;
}
finish false written = record { stdout = []; written = written; stderr = []; status = 0 }

module _ (before : ℕ) (files : Bytes → Option Bytes) where
  -- Every call of `reverse` on the two names reads and writes the same.
  unfoldable pub two_names : Calls → Bytes → Ended
  two_names calls input =
      if calls.reversed == 0 then finish calls.refused none else elim (files input) [
        | none ↦ cannot_open input
        | some str ↦ finish calls.refused (some (reverse before str))
      ]

  -- The arguments behind the program's name.
  unfoldable pub run : Bytes → List Bytes → Ended
  run stdin [] = record { stdout = reverse before stdin; written = none; stderr = []; status = 0 }
  run stdin (input ∷ []) = elim (files input) [
    | none ↦ cannot_open input
    | some str ↦ record { stdout = reverse before str; written = none; stderr = []; status = 0 }
  ]
  run stdin (input ∷ output ∷ []) = two_names (main input output) input
  run stdin (a ∷ b ∷ c ∷ args) = record {
    stdout = [];
    written = none;
    stderr = codes "usage: reverse <input> <output>\n";
    status = 1;
  }

-- If the names are not refused, `reverse` has been called.
compare_names-reversed :
    (input output : Bytes) (j count reversed : ℕ)
    → (compare_names input output j count reversed).refused ≡ false
    → 0 < (compare_names input output j count reversed).reversed
unfolding compare_names
compare_names-reversed input output zero count reversed h = omega arith
compare_names-reversed input output (suc j) count reversed h = ground (
  arith,
  compare_names-reversed input output j (count + 1) reversed,
  compare_names-reversed input output j count (reversed + 1),
)

accepted :
    (before : ℕ) (files : Bytes → Option Bytes) (calls : Calls) (input str : Bytes)
    → calls.refused ≡ false
    → 0 < calls.reversed
    → files input ≡ some str
    → two_names before files calls input
      ≡ record { stdout = []; written = some (reverse before str); stderr = []; status = 0 }
unfolding two_names
accepted before files calls input str ok some_call e =
    rw (two_names, ne→== calls.reversed 0 (λ q. omega arith), e, ok) refl

names_reversed :
    (input output : Bytes) → (main input output).refused ≡ false → 0 < (main input output).reversed
unfolding main
names_reversed input output ok =
    compare_names-reversed input output (length output) 0
      (if ltb (length output) (base_len input (length input) 0) then 1 else 0) ok

-- On a file of lines that end with a newline each, `reverse` ends with status 0 and gives the lines in
-- reverse order, with a newline each: on its standard output, if the file is its standard input or its
-- only argument, and in the output file alone, if that is named too and the names are not refused.
pub run-newline :
    (before : ℕ) (files : Bytes → Option Bytes) (stdin input output l : Bytes) (ls : List Bytes)
    → All HasNoNewline (l ∷ ls)
    → files input ≡ some (join (l ∷ ls) ++ (10 ∷ []))
    → (main input output).refused ≡ false
    → (run before files (join (l ∷ ls) ++ (10 ∷ [])) [] ≡ record {
      stdout = join (rev_onto (l ∷ ls) []) ++ (10 ∷ []);
      written = none;
      stderr = [];
      status = 0;
    })
      × (run before files stdin (input ∷ []) ≡ record {
        stdout = join (rev_onto (l ∷ ls) []) ++ (10 ∷ []);
        written = none;
        stderr = [];
        status = 0;
      })
      × (run before files stdin (input ∷ output ∷ []) ≡ record {
        stdout = [];
        written = some (join (rev_onto (l ∷ ls) []) ++ (10 ∷ []));
        stderr = [];
        status = 0;
      })
unfolding run
run-newline before files stdin input output l ls h e ok =
    let lines = reverse-newline before l ls h in
    (
      ap (λ t. record { stdout = t; written = none; stderr = []; status = 0 }) lines,
      rw (run, e) (ap (λ t. record { stdout = t; written = none; stderr = []; status = 0 }) lines),
      accepted before files (main input output) input (join (l ∷ ls) ++ (10 ∷ [])) ok
            (names_reversed input output ok) e
          ∙ ap (λ t. record { stdout = []; written = some t; stderr = []; status = 0 }) lines,
    )
