-- ===== src/Utilities/Tests.antt =====
-- Runs of the theorems about wcat and wgrep on small files.
use ostep_projects_finish.Common.{◌≡◌, false, some, List, [], ◌∷◌, map, length, suc, codes}
use ostep_projects_finish.Common.Text.{Bytes}
use ostep_projects_finish.Utilities.{read_all, concat, wgrep, wcat_main}
use ostep_projects_finish.Utilities.Copy.{wcat_main-files}
use ostep_projects_finish.Utilities.Search.{Selected, wgrep-Selected}

abbrev text : Bytes
text = codes "ab\ncd\nb"

wcat_two_files :
    wcat_main (map some (text ∷ codes "x" ∷ []))
    ≡ some (record { printed = concat (text ∷ codes "x" ∷ []); failed = false })
wcat_two_files = wcat_main-files (text ∷ codes "x" ∷ [])

wgrep-Selected_example :
    (ls : List Bytes) × (printed : Bytes) × (read_all (suc (length text)) (suc (length text)) text
      ≡ some ls)
    × (concat ls ≡ text)
    × (wgrep (some text) (codes "b") ≡ some (record { printed = printed; failed = false }))
    × Selected (codes "b") ls printed
wgrep-Selected_example = wgrep-Selected text (codes "b")
