-- ===== src/Web/Request/Access.antt =====
-- concurrency-webserver/src_multi/request.c: the two schedules give a request the same answer, and a
-- file is served or run only when it may be.
use ostep_projects_finish.Common.{
  ℕ, ◌≡◌, arith, sym, subst, Bool, true, false, ◌&&◌, Option, none, some,
}
use ostep_projects_finish.Common.Text.{Bytes}
use ostep_projects_finish.Web.Request.{
  Stat, s_isreg, s_irusr, s_ixusr, Outcome, RequestInfor, Sized, request_serve_static,
  request_serve_dynamic, request_handle, sized, file_size, request_handle_infor,
}

-- What is written to the client in the schedule SFF, by `file_size` or, when this returns a request, by
-- `request_handle_infor`. What the server does with a NULL is in Web.Sff.
abbrev pub answer :
    (Bytes → ℕ → Option Bytes) → (Bytes → Option Stat) → Option Sized → Option Outcome
answer mapped stat none = none
answer mapped stat (some (Sized.null r)) = some (Outcome.refused r)
answer mapped stat (some (Sized.infor r)) = some (request_handle_infor stat mapped r)

module _ (stat : Bytes → Option Stat) (mapped : Bytes → ℕ → Option Bytes) where
  -- Whether the file system lets the owner read the file, or run it.
  abbrev pub may : (ℕ → Bool) → Bytes → Bool
  may test filename = elim (stat filename) [
    | none ↦ false
    | some s ↦ s_isreg s.st_mode && test s.st_mode
  ]

  abbrev pub IsAllowed : Outcome → Type 0
  IsAllowed (Outcome.refused r) = Unit
  IsAllowed Outcome.died = Unit
  IsAllowed (Outcome.served f r) = may s_irusr f ≡ true
  IsAllowed (Outcome.ran f args r) = may s_ixusr f ≡ true

  -- If the file does not change, `request_handle` does what `request_handle_infor` does with the request
  -- that `file_size` returns, and where `file_size` returns NULL, it writes the error that `file_size` has
  -- written; and one of them is not over just when the other is not.
  pub request_handle-file_size :
      (fuel : ℕ) (stale : ℕ → Bytes) (input : Bytes)
      → request_handle stat mapped fuel stale input
        ≡ answer mapped stat (file_size stat mapped fuel stale input)
  unfolding request_handle file_size sized request_handle_infor
  request_handle-file_size fuel stale input = ground arith

  handle_infor-IsAllowed :
      (r : RequestInfor)
      → stat r.filename ≡ some r.sbuf
      → IsAllowed (request_handle_infor stat mapped r)
  unfolding request_handle_infor request_serve_static request_serve_dynamic
  handle_infor-IsAllowed r e = ground arith

  -- The name in the request that `file_size` returns is one that `stat` knows.
  abbrev IsKnown : Option Sized → Type 0
  IsKnown (some (Sized.infor r)) = stat r.filename ≡ some r.sbuf
  IsKnown (some (Sized.null r)) = Unit
  IsKnown none = Unit

  file_size-IsKnown :
      (fuel : ℕ) (stale : ℕ → Bytes) (input : Bytes)
      → IsKnown (file_size stat mapped fuel stale input)
  unfolding file_size sized
  file_size-IsKnown fuel stale input = ground arith

  abbrev pub AllAllowed : Option Outcome → Type 0
  AllAllowed none = Unit
  AllAllowed (some o) = IsAllowed o

  answer-AllAllowed : (s : Option Sized) → IsKnown s → AllAllowed (answer mapped stat s)
  answer-AllAllowed none k = tt
  answer-AllAllowed (some (Sized.null r)) k = tt
  answer-AllAllowed (some (Sized.infor r)) k = handle_infor-IsAllowed r k

  -- For every request, a file that `request_handle` sends is a regular one that `stat` says its owner
  -- may read, and a program that it runs is a regular file that its owner may execute.
  pub request_handle-IsAllowed :
      (fuel : ℕ) (stale : ℕ → Bytes) (input : Bytes)
      → AllAllowed (request_handle stat mapped fuel stale input)
  request_handle-IsAllowed fuel stale input =
      subst AllAllowed (sym (request_handle-file_size fuel stale input)) (
        answer-AllAllowed (file_size stat mapped fuel stale input)
          (file_size-IsKnown fuel stale input))
