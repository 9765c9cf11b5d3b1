-- ===== src/Web/Client/Whole.antt =====
-- A file on its way from the server of concurrency-webserver/src_multi/request.c to what wclient.c prints.
use ostep_projects_finish.Common.{ℕ, ◌≤◌, Option, List, [], ◌∷◌, ◌++◌, length, codes}
use ostep_projects_finish.Common.Text.{Bytes, decimal}
use ostep_projects_finish.Web.Request.{Target, request_get_filetype, Stat, RequestInfor}
use ostep_projects_finish.Web.Request.Headers.{IsText}

-- A text of at most `n` bytes.
abbrev IsShort : ℕ → Bytes → Type 0
IsShort n s = IsText s × (length s ≤ n)

-- The headers of the answer for a file, each without its newline.
abbrev pub answer_headers : Bytes → ℕ → List Bytes
answer_headers filename filesize =
    codes "HTTP/1.0 200 OK\r"
    ∷ codes "Server: OSTEP WebServer\r"
    ∷ (codes "Content-Length: " ++ (decimal filesize ++ (13 ∷ [])))
    ∷ (codes "Content-Type: " ++ (request_get_filetype filename ++ (13 ∷ [])))
    ∷ []

module _ (stat : Bytes → Option Stat) (mapped : Bytes → ℕ → Option Bytes) where
  abbrev request_of : Target → Stat → RequestInfor
  request_of t sbuf = record {
    sbuf = sbuf;
    filename = t.filename;
    cgiargs = t.cgiargs;
    is_static = t.is_static;
  }
