-- ===== src/Web/Sff.antt =====
-- concurrency-webserver/src_multi/wserver.c: the buffer of the schedule "shortest file first". Its
-- entries are what `file_size` returns, so they may be NULL; the list holds the first `count` of them.
-- `none` as the result of an operation is a crash at a NULL.
pub mod Order
pub mod Schedule
pub mod Refused
use ostep_projects_finish.Common.{
  ℕ, zero, suc, ◌+◌, ◌-◌, Bool, true, false, Option, none, some, List, [], ◌∷◌, ◌++◌, length,
  get_or, ltb, if◌then◌else◌,
}
use ostep_projects_finish.Common.Sift.{swap_down}
use ostep_projects_finish.Web.Request.{Stat, RequestInfor, Sized}

-- `infor_buf[i]->sbuf.st_size`
unfoldable pub size_at : List (Option RequestInfor) → ℕ → Option ℕ
size_at infor_buf i = elim (get_or infor_buf i none) [ none ↦ none | some r ↦ some r.sbuf.st_size ]

-- The loop of `put_sff`, with `i` going down to 1. It has no early exit.
unfoldable pub bubble : ℕ → List (Option RequestInfor) → Option (List (Option RequestInfor))
bubble zero infor_buf = some infor_buf
bubble (suc i) infor_buf = elim (size_at infor_buf (suc i)) [
  | none ↦ none
  | some above ↦ elim (size_at infor_buf i) [
    | none ↦ none
    | some below ↦ bubble i (if ltb above below then swap_down none i infor_buf else infor_buf)
  ]
]

unfoldable pub put_sff :
    Option RequestInfor → List (Option RequestInfor) → Option (List (Option RequestInfor))
put_sff infor infor_buf = bubble (length infor_buf) (infor_buf ++ (infor ∷ []))

-- What `file_size` returns, as an entry of the buffer.
abbrev pub entry_of : Sized → Option RequestInfor
entry_of (Sized.null refusal) = none
entry_of (Sized.infor r) = some r

-- The loop of `get_sff` moves each entry one place down. The caller waits until `count` is not 0.
unfoldable pub get_sff :
    List (Option RequestInfor) → Option (Option RequestInfor × List (Option RequestInfor))
get_sff [] = none
get_sff (infor ∷ infor_buf) = some (infor, infor_buf)

-- What `thread_consumer_sff` gets from the buffer: it looks at `infor->fd` at once.
unfoldable pub consume_sff :
    List (Option RequestInfor) → Option (RequestInfor × List (Option RequestInfor))
unfolding get_sff
consume_sff infor_buf = elim (get_sff infor_buf) [
  | none ↦ none
  | some (infor, rest) ↦ elim infor [ none ↦ none | some r ↦ some (r, rest) ]
]
