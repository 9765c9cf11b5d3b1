-- ===== src/Reverse/Tests.antt =====
-- Runs of the theorems about reverse on small texts.
use ostep_projects_finish.Common.{
  ◌≡◌, refl, true, false, Option, none, some, List, [], ◌∷◌, ◌++◌, All, codes, arith,
}
use ostep_projects_finish.Common.Sift.{rev_onto}
use ostep_projects_finish.Common.Text.{Bytes}
use ostep_projects_finish.Reverse.{reverse, main, base_len, compare_names, print_lines}
use ostep_projects_finish.Reverse.Program.{run, two_names, run-newline}
use ostep_projects_finish.Reverse.Lines.{HasNoNewline, join, reverse-join}
use ostep_projects_finish.Reverse.Names.{main-behind}

abbrev lines : List Bytes
lines = codes "a" ∷ codes "b" ∷ []

lines_have_none : All HasNoNewline lines
lines_have_none = ((omega arith, tt), ((omega arith, tt), tt))

two_in_reverse : reverse 0 (join lines) ≡ join (rev_onto lines [])
two_in_reverse = reverse-join 0 (codes "a") (codes "b" ∷ []) lines_have_none refl

main-behind_example :
    main (codes "in") (codes "b/" ++ codes "in") ≡ record { reversed = 0; refused = true }
main-behind_example = main-behind (codes "b/") (codes "in") (omega arith)

abbrev files : Bytes → Option Bytes
files name = some (codes "a\nb\n")

accepted_names : (main (codes "in") (codes "out")).refused ≡ false
unfolding main base_len compare_names
accepted_names = refl

run-newline_example :
    (run 0 files (codes "a\nb\n") []
      ≡ record { stdout = codes "b\na\n"; written = none; stderr = []; status = 0 })
    × (run 0 files [] (codes "in" ∷ [])
        ≡ record { stdout = codes "b\na\n"; written = none; stderr = []; status = 0 })
    × (run 0 files [] (codes "in" ∷ codes "out" ∷ [])
        ≡ record { stdout = []; written = some (codes "b\na\n"); stderr = []; status = 0 })
run-newline_example =
    run-newline 0 files [] (codes "in") (codes "out") (codes "a") (codes "b" ∷ []) lines_have_none
      refl accepted_names

-- A name that differs from the input's in front of its bytes only is refused; the output file has been
-- written by then, since an earlier byte differs.
late_refusal : run 0 files [] (codes "ab" ∷ codes "acb" ∷ []) ≡ record {
  stdout = [];
  written = some (codes "b\na\n");
  stderr = codes "reverse: input and output file must differ\n";
  status = 1;
}
unfolding run two_names main base_len compare_names reverse print_lines
late_refusal = refl
