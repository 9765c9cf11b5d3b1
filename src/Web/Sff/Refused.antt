-- ===== src/Web/Sff/Refused.antt =====
-- concurrency-webserver/src_multi: what a request that the server does not support does to the schedule
-- SFF, by `file_size` of request.c and the buffer of wserver.c.
use ostep_projects_finish.Common.{
  ℕ, ◌-◌, ◌<◌, ◌≡◌, refl, false, Option, none, some, List, [], ◌∷◌, ◌++◌, map, length, get_or,
  str_eq, codes,
}
use ostep_projects_finish.Common.Text.{Bytes, words, lower}
use ostep_projects_finish.Web.Request.{maxbuf, Stat, RequestInfor, Sized, unsupported, file_size}
use ostep_projects_finish.Web.Request.Headers.{IsText, readline_rest}
use ostep_projects_finish.Web.Sff.{bubble, put_sff, consume_sff, entry_of}
use ostep_projects_finish.Web.Sff.Order.{put_sff-null}

-- The method in the first line of a request.
abbrev pub method_of : (ℕ → Bytes) → Bytes → Bytes
method_of stale first = get_or (words (first ++ (10 ∷ []))) 0 (stale 0)

put_first : put_sff none [] ≡ some (none ∷ [])
unfolding put_sff bubble
put_first = refl

module _ (stat : Bytes → Option Stat) (mapped : Bytes → ℕ → Option Bytes) where
  -- A request whose first line is text that fits the buffer and names a method other than GET is answered
  -- by `file_size` alone, whatever follows the line, and crashes the server: in front of the main
  -- thread's wait for the next connection if another entry waits in the buffer, and otherwise with the
  -- next thread that puts an entry or takes this one.
  pub file_size-crash :
      (fuel : ℕ) (stale : ℕ → Bytes) (first rest : Bytes) (waiting next : Option RequestInfor)
      (l : List (Option RequestInfor))
      → IsText first
      → length first < maxbuf - 1
      → str_eq (map lower (method_of stale first)) (codes "get") ≡ false
      → (sized : Sized) × (file_size stat mapped fuel stale (first ++ (10 ∷ rest)) ≡ some sized)
        × (sized ≡ Sized.null (unsupported (method_of stale first)))
        × (put_sff (entry_of sized) (waiting ∷ l) ≡ none)
        × (put_sff (entry_of sized) [] ≡ some (none ∷ []))
        × (put_sff next (none ∷ []) ≡ none)
        × (consume_sff (none ∷ []) ≡ none)
  unfolding file_size
  file_size-crash fuel stale first rest waiting next l text short other =
      let (c, r) = readline_rest first (stale 2) rest text short in
      let crash = put_sff-null l next waiting in
      (
        Sized.null (unsupported (method_of stale first)),
        rw (c, other) refl,
        refl,
        crash.0,
        put_first,
        crash.1,
        (put_sff-null [] next waiting).2,
      )
