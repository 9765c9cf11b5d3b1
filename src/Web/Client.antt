-- ===== src/Web/Client.antt =====
-- concurrency-webserver/src_multi/wclient.c, on `readline` of io_helper.c: what the client sends for a
-- file, and what it prints of the answer. Hostname, answer and print-out are lists of bytes.
pub mod Printing
pub mod Fetch
pub mod Whole
mod Tests
use ostep_projects_finish.Common.{
  ℕ, zero, suc, ◌+◌, ◌-◌, ◌≡◌, Bool, not, ◌&&◌, Option, none, some, List, [], ◌∷◌, ◌++◌, ltb, ◌==◌,
  if◌then◌else◌, str_eq, codes,
}
use mathlib.Core.Option
use ostep_projects_finish.Common.Text.{Bytes, cstr, crlf}
use ostep_projects_finish.Web.Request.{maxbuf, readline}
use ostep_projects_finish.Web.Options.{ℤ}

-- What `gethostname` gives is a parameter, and so is what the second `sprintf` leaves in `buf` from its
-- text and the host's name: its target is an argument as well, which C leaves undefined. The texts fit
-- the 8192 bytes of `buf`.
unfoldable pub client_send : (Bytes → Bytes → Bytes) → Bytes → Bytes → Bytes
client_send sprintf_host hostname filename =
    sprintf_host (codes "GET " ++ (filename ++ codes " HTTP/1.1\n")) hostname

-- A `sprintf` that copies a text to its own place and goes on behind it.
abbrev pub IsInPlace : (Bytes → Bytes → Bytes) → Type 0
IsInPlace sprintf_host =
    (text hostname : Bytes)
    → sprintf_host text hostname ≡ text ++ (codes "host: " ++ (hostname ++ codes "\n\r\n"))

-- What `readline` returns, with the rounds left and `n`: the newline is not counted, and one byte in
-- front of the end counts as none.
unfoldable pub count_read : ℕ → ℕ → Bytes → ℕ
count_read zero n input = n
count_read (suc rounds) n [] = if n == 1 then 0 else n
count_read (suc rounds) n (c ∷ input) =
    let more = count_read rounds (n + 1) input in if c == 10 then n else more

abbrev pub returned : Bytes → ℕ
returned input = count_read (maxbuf - 1) 0 input

-- The loops of `client_print`, which have just read `buf` with the result `n`; each round of fuel prints
-- a line, and `none` is out of fuel.
unfoldable pub print_body : ℕ → Bytes → ℕ → Bytes → Option Bytes
print_body zero buf n input = none
print_body (suc fuel) buf n input =
    let (buf', rest) = readline maxbuf buf input in
    let more = print_body fuel buf' (returned input) rest in
    if ltb 0 n then Option.map (λ out. cstr buf ++ out) more else some []

unfoldable pub print_headers : ℕ → Bytes → ℕ → Bytes → Option Bytes
print_headers zero buf n input = none
print_headers (suc fuel) buf n input =
    let (buf', rest) = readline maxbuf buf input in
    let more = print_headers fuel buf' (returned input) rest in
    if not (str_eq (cstr buf) crlf) && ltb 0 n
    then Option.map (λ out. codes "Header: " ++ (cstr buf ++ out)) more
    else print_body fuel buf' (returned input) rest

-- `buf` is what the array holds before the first call.
unfoldable pub client_print : ℕ → Bytes → Bytes → Option Bytes
client_print fuel buf input =
    let (buf', rest) = readline maxbuf buf input in print_headers fuel buf' (returned input) rest

-- How the client ends: with status 1, by an assertion, or with what it has printed.
pub data End : Type 0 where
  usage : End
  died : End
  printed : Bytes → End

-- `main` with its arguments behind the name. `connect` gives, for a host and a port, the answer to what
-- is sent over the connection, if there is one.
unfoldable pub main :
    (Bytes → ℤ)
    → (Bytes → ℤ → Option (Bytes → Bytes))
    → (Bytes → Bytes → Bytes)
    → Bytes
    → ℕ
    → Bytes
    → List Bytes
    → Option End
main atoi connect sprintf_host hostname fuel buf (host ∷ port ∷ filename ∷ []) =
    elim (connect host (atoi port)) [
      | none ↦ some died
      | some answer ↦
          Option.map printed
            (client_print fuel buf (answer (client_send sprintf_host hostname filename)))
    ]
main atoi connect sprintf_host hostname fuel buf args = some usage
