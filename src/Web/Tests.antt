-- ===== src/Web/Tests.antt =====
-- Runs of the theorems about the web server.
use ostep_projects_finish.Common.{
  ℕ, ◌+◌, ◌⊎◌, ◌≤◌, ◌≡◌, suc, refl, true, Option, none, some, List, [], ◌∷◌, ◌++◌, length, All,
  codes, str_eq, arith,
}
use mathlib.Core.List.{Perm}
use ostep_projects_finish.Common.Text.{Bytes}
use ostep_projects_finish.Web.Buffer.{
  Server, start_server, put, get, Step, Reach, waiting, server_fifo,
}
use ostep_projects_finish.Web.Request.{
  Stat, RequestInfor, request_read_headers, request_handle, file_size,
}
use ostep_projects_finish.Web.Request.Headers.{
  IsHeader, all_lines, request_read_headers-all_lines, request_read_headers_closed,
}
use ostep_projects_finish.Web.Request.Access.{
  answer, AllAllowed, request_handle-file_size, request_handle-IsAllowed,
}
use ostep_projects_finish.Web.Waiting.{Run, stay, onward, gets, waits_bounded}
use ostep_projects_finish.Web.Sff.Schedule
use ostep_projects_finish.Web.Sff.{bubble, put_sff, consume_sff, entry_of}
use ostep_projects_finish.Web.Sff.Refused.{method_of, file_size-crash}
use ostep_projects_finish.Web.Request.{Sized, unsupported}
use ostep_projects_finish.Web.Request.Headers.{IsText}
use ostep_projects_finish.Web.Sff.Order.{pointers, IsSorted, put_sff-IsSorted, put_sff-null}

abbrev one_put : Server
one_put = record { buffer = put 2 7 (start_server 2).buffer; accepted = [] ++ (7 ∷ []); taken = [] }

one_put-Reach : Reach 2 one_put
one_put-Reach = Reach.later Reach.start (Step.accept 7 (omega arith))

put_is_waiting :
    (one_put.buffer.count ≤ 2) × (one_put.taken ++ waiting 2 one_put.buffer ≡ one_put.accepted)
put_is_waiting = server_fifo 2 one_put (omega arith) one_put-Reach

-- A regular file of 5 bytes that its owner may read and run, for every name.
abbrev files : Bytes → Option Stat
files name = some (record { st_mode = 33216; st_size = 5 })

abbrev contents : Bytes → ℕ → Option Bytes
contents name n = some (codes "hello")

abbrev stale : ℕ → Bytes
stale i = []

abbrev request : Bytes
request = codes "GET /a.html HTTP/1.0\r\n\r\n"

request_handle-file_size_example :
    request_handle files contents 3 stale request
    ≡ answer contents files (file_size files contents 3 stale request)
request_handle-file_size_example = request_handle-file_size files contents 3 stale request

request_handle-IsAllowed_example :
    AllAllowed files contents (request_handle files contents 3 stale request)
request_handle-IsAllowed_example = request_handle-IsAllowed files contents 3 stale request

host-IsHeader : All IsHeader (codes "Host" ∷ [])
unfolding str_eq
host-IsHeader = (
  (
    (
      (omega arith, omega arith),
      ((omega arith, omega arith), ((omega arith, omega arith), ((omega arith, omega arith), tt))),
    ),
    omega arith,
    refl,
  ),
  tt,
)

request_read_headers-all_lines_example :
    request_read_headers
      (suc (length (codes "Host" ∷ [])))
      []
      (all_lines (codes "Host" ∷ []) (1 ∷ []))
    ≡ some (1 ∷ [])
request_read_headers-all_lines_example =
    request_read_headers-all_lines (codes "Host" ∷ []) [] (1 ∷ []) host-IsHeader

closed_at_once : request_read_headers 9 [] [] ≡ none
closed_at_once = request_read_headers_closed 9 []

abbrev of_size : ℕ → RequestInfor
of_size n = record {
  sbuf = record { st_mode = 33216; st_size = n };
  filename = codes "./a";
  cgiargs = [];
  is_static = true;
}

abbrev queue : List RequestInfor
queue = of_size 2 ∷ of_size 5 ∷ []

queue-IsSorted : IsSorted queue
queue-IsSorted = ((omega arith, tt), (tt, tt))

put_in_order :
    (l' : List RequestInfor) × (put_sff (some (of_size 3)) (pointers queue) ≡ some (pointers l'))
    × IsSorted l'
    × Perm l' (of_size 3 ∷ queue)
put_in_order = put_sff-IsSorted queue (of_size 3) queue-IsSorted

null_crashes :
    (put_sff none (some (of_size 2) ∷ []) ≡ none)
    × (put_sff (some (of_size 3)) (none ∷ []) ≡ none)
    × (consume_sff (none ∷ []) ≡ none)
null_crashes = put_sff-null [] (some (of_size 3)) (some (of_size 2))

-- One connection waits, and a worker takes it.
abbrev one_taken : Server
one_taken = record {
  buffer = (get 2 one_put.buffer).1;
  accepted = one_put.accepted;
  taken = [] ++ ((get 2 one_put.buffer).0 ∷ []);
}

one_run : Run 2 one_put one_taken
unfolding put
one_run = onward stay (Step.consume (omega arith))

one_waits : waiting 2 one_put.buffer ≡ [] ++ (7 ∷ [])
unfolding put
one_waits = refl

one_get : gets one_run ≡ 1
unfolding one_run
one_get = refl

waits_bounded_example : (rest : List ℕ) × (one_taken.taken ≡ ([] ++ ([] ++ (7 ∷ []))) ++ rest)
waits_bounded_example =
    waits_bounded 2 one_put one_taken [] 7 [] (omega arith) one_put-Reach one_run one_waits
      (omega (arith, one_get))

abbrev one_sff : Schedule.Server
one_sff = record { infor_buf = some (of_size 3) ∷ []; accepted = of_size 3 ∷ []; taken = [] }

one_sff-Reach : Schedule.Reach 2 one_sff
unfolding put_sff bubble
one_sff-Reach =
    Schedule.Reach.later Schedule.Reach.start
      (Schedule.Step.accept (some (of_size 3)) (some (of_size 3) ∷ []) (omega arith) refl)

server_sff_example :
    (length one_sff.infor_buf + 1 ≤ 2)
    × (Schedule.IsStuck one_sff ⊎ ((l : List RequestInfor) × Schedule.Waits one_sff l))
server_sff_example = Schedule.server_sff 2 one_sff (omega arith) one_sff-Reach

server_sff_one_place_example : Schedule.start_server ≡ Schedule.start_server
server_sff_one_place_example =
    Schedule.server_sff_one_place Schedule.start_server Schedule.Reach.start

posted : IsText (codes "POST /")
posted = omega arith

file_size-crash_example :
    (sized : Sized) × (file_size files contents 3 stale (codes "POST /" ++ (10 ∷ [])) ≡ some sized)
    × (sized ≡ Sized.null (unsupported (method_of stale (codes "POST /"))))
    × (put_sff (entry_of sized) (some (of_size 2) ∷ []) ≡ none)
    × (put_sff (entry_of sized) [] ≡ some (none ∷ []))
    × (put_sff (some (of_size 3)) (none ∷ []) ≡ none)
    × (consume_sff (none ∷ []) ≡ none)
file_size-crash_example =
    file_size-crash files contents 3 stale (codes "POST /") [] (some (of_size 2)) (some (of_size 3))
      [] posted (omega arith) (unfold str_eq in refl)
