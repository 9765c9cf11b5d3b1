-- ===== src/Web/Client/Tests.antt =====
-- A client that asks for a file of two lines.
use ostep_projects_finish.Common.{
  ℕ, ◌+◌, ◌≡◌, refl, Option, some, List, [], ◌∷◌, ◌++◌, length, All, codes, str_eq, arith,
}
use ostep_projects_finish.Common.Text.{Bytes}
use ostep_projects_finish.Web.Request.{Stat}
use ostep_projects_finish.Web.Request.Headers.{all_lines}
use ostep_projects_finish.Web.Client.{client_print}
use ostep_projects_finish.Web.Client.Printing.{
  IsFull, joined, headers_printed, IsFullHeader, client_print_empty_line,
}

-- A `sprintf` that works in place.
abbrev in_place : Bytes → Bytes → Bytes
in_place text hostname = text ++ (codes "host: " ++ (hostname ++ codes "\n\r\n"))

abbrev readable : Stat
readable = record { st_mode = 33152; st_size = 6 }

abbrev files : Bytes → Option Stat
files name = some readable

abbrev two_lines : List Bytes
two_lines = codes "hi" ∷ codes "ho" ∷ []

abbrev contents : Bytes → ℕ → Option Bytes
contents name n = some (joined two_lines [])

abbrev stale : ℕ → Bytes
stale i = []

abbrev name : Bytes
name = codes "/a"

two_lines-IsFull : All IsFull two_lines
two_lines-IsFull = omega arith

one_header : All IsFullHeader (codes "OK" ∷ [])
unfolding str_eq
one_header = (((omega arith, omega arith, refl), omega arith), tt)

client_print_empty_line_example :
    client_print
      (length (codes "OK" ∷ []) + (2 + length two_lines))
      []
      (all_lines (codes "OK" ∷ []) (joined two_lines (10 ∷ codes "lost")))
    ≡ some (headers_printed (codes "OK" ∷ []) (joined two_lines []))
client_print_empty_line_example =
    client_print_empty_line (codes "OK" ∷ []) two_lines [] (codes "lost") one_header
      two_lines-IsFull
