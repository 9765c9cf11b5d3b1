-- ===== src/Web/Request.antt =====
-- concurrency-webserver/src_multi/request.c, and `readline` of io_helper.c. A connection is the list of
-- the bytes that `read` still gives before it meets the end; what the server does with a request is a
-- value. The file system is a parameter: what `stat` and a mapping of the file give for a name. The
-- method and the URI are taken to be short enough for the arrays of 8192 bytes into which they are put
-- with the texts around them.
pub mod Headers
pub mod Access
use ostep_projects_finish.Common.{
  ℕ, zero, suc, ◌+◌, ◌-◌, ◌/◌, ◌%◌, Bool, true, false, not, ◌&&◌, Option, none, some, List, [], ◌∷◌,
  ◌++◌, map, length, get_or, drop, ◌==◌, if◌then◌else◌, str_eq, codes,
}
use ostep_projects_finish.Common.Text.{
  Bytes, cstr, strstr, split_at, last_or, words, lower, decimal, crlf, line,
}

abbrev pub maxbuf : ℕ
maxbuf = 8192

-- The loop of `readline`, with the rounds left and `n`: the bytes read, whether a NUL is put behind
-- them, and what is left to read.
unfoldable pub read_bytes : ℕ → ℕ → Bytes → Bytes × Bool × Bytes
read_bytes zero n input = ([], true, input)
read_bytes (suc rounds) n [] = ([], not (n == 1), [])
read_bytes (suc rounds) n (c ∷ input) =
    let (l, ends, rest) = read_bytes rounds (n + 1) input in
    if c == 10 then (c ∷ [], true, input) else (c ∷ l, ends, rest)

-- What `buf` holds after the call, and what is left to read.
unfoldable pub readline : ℕ → Bytes → Bytes → Bytes × Bytes
readline maxlen buf input =
    let (l, ends, rest) = read_bytes (maxlen - 1) 0 input in
    (l ++ (if ends then 0 ∷ drop (suc (length l)) buf else drop (length l) buf), rest)

-- Each round of fuel reads a line; `none` is out of fuel.
unfoldable pub request_read_headers : ℕ → Bytes → Bytes → Option Bytes
request_read_headers zero buf input = none
request_read_headers (suc fuel) buf input =
    let (buf', rest) = readline maxbuf buf input in
    let more = request_read_headers fuel buf' rest in
    if str_eq (cstr buf') crlf then some rest else more

pub record Target : Type 0 where
  pub is_static : Bool
  pub filename : Bytes
  pub cgiargs : Bytes

-- The URI is a word of the request line, so it is not empty.
unfoldable pub request_parse_uri : Bytes → Target
request_parse_uri uri =
    if not (strstr uri (codes "cgi"))
    then record {
      is_static = true;
      filename = codes "." ++ uri ++ (if last_or uri 0 == 47 then codes "index.html" else []);
      cgiargs = [];
    }
    else (let (front, back) = split_at 63 uri in
        record {
          is_static = false;
          filename = codes "." ++ front;
          cgiargs = elim back [ none ↦ [] | some args ↦ args ];
        })

unfoldable pub request_get_filetype : Bytes → Bytes
request_get_filetype filename =
    if strstr filename (codes ".html")
    then codes "text/html"
    else if strstr filename (codes ".gif")
    then codes "image/gif"
    else if strstr filename (codes ".jpg")
    then codes "image/jpeg"
    else codes "text/plain"

abbrev pub error_body : Bytes → Bytes → Bytes → Bytes → Bytes
error_body cause errnum shortmsg longmsg =
    line "<!doctype html>"
    ++ line "<head>"
    ++ line "  <title>OSTEP WebServer Error</title>"
    ++ line "</head>"
    ++ line "<body>"
    ++ (codes "  <h2>" ++ errnum ++ codes ": " ++ shortmsg ++ line "</h2>")
    ++ (codes "  <p>" ++ longmsg ++ codes ": " ++ cause ++ line "</p>")
    ++ line "</body>"
    ++ line "</html>"

-- The bytes that `request_error` writes.
unfoldable pub request_error : Bytes → Bytes → Bytes → Bytes → Bytes
request_error cause errnum shortmsg longmsg =
    let body = error_body cause errnum shortmsg longmsg in
    codes "HTTP/1.0 "
    ++ errnum
    ++ codes " "
    ++ shortmsg
    ++ crlf
    ++ line "Content-Type: text/html"
    ++ (codes "Content-Length: " ++ decimal (length body) ++ crlf ++ crlf)
    ++ body

pub record Stat : Type 0 where
  pub st_mode : ℕ
  pub st_size : ℕ

-- The owner's permissions, and the kind of a regular file.
unfoldable pub s_isreg : ℕ → Bool
s_isreg mode = mode / 4096 % 16 == 8

unfoldable pub s_irusr : ℕ → Bool
s_irusr mode = mode / 256 % 2 == 1

unfoldable pub s_ixusr : ℕ → Bool
s_ixusr mode = mode / 64 % 2 == 1

-- What the server does with a connection: it writes an error, writes a file, or writes the first
-- lines and runs a program that writes the rest, with its `QUERY_STRING0`; or the server ends.
pub data Outcome : Type 0 where
  refused : Bytes → Outcome
  served : Bytes → Bytes → Outcome
  ran : Bytes → Bytes → Bytes → Outcome
  died : Outcome

unfoldable pub request_serve_dynamic : Bytes → Bytes → Outcome
request_serve_dynamic filename cgiargs =
    Outcome.ran filename cgiargs (line "HTTP/1.0 200 OK" ++ line "Server: OSTEP WebServer")

pub record RequestInfor : Type 0 where
  pub sbuf : Stat
  pub filename : Bytes
  pub cgiargs : Bytes
  pub is_static : Bool

-- What `file_size` does: it writes an error and returns NULL, or it returns the request.
pub data Sized : Type 0 where
  null : Bytes → Sized
  infor : RequestInfor → Sized

abbrev pub unsupported : Bytes → Bytes
unsupported method =
    request_error method (codes "501") (codes "Not Implemented")
      (codes "server does not implement this method")

abbrev pub not_found : Bytes → Bytes
not_found filename =
    request_error filename (codes "404") (codes "Not found")
      (codes "server could not find this file")

abbrev pub unreadable : Bytes → Bytes
unreadable filename =
    request_error filename (codes "403") (codes "Forbidden")
      (codes "server could not read this file")

abbrev pub not_runnable : Bytes → Bytes
not_runnable filename =
    request_error filename (codes "403") (codes "Forbidden")
      (codes "server could not run this CGI program")

module _ (stat : Bytes → Option Stat) (mapped : Bytes → ℕ → Option Bytes) where
  -- `none` from `mapped` is a file that cannot be opened or mapped, as one of size 0: the assertion in
  -- `open_or_die` or `mmap_or_die` ends the server. `filesize` is an int: sizes are below 2 ^ 31.
  unfoldable pub request_serve_static : Bytes → ℕ → Outcome
  request_serve_static filename filesize = elim (mapped filename filesize) [
    | none ↦ Outcome.died
    | some srcp ↦ Outcome.served filename (
        line "HTTP/1.0 200 OK"
        ++ line "Server: OSTEP WebServer"
        ++ (codes "Content-Length: " ++ decimal filesize ++ crlf)
        ++ (codes "Content-Type: " ++ request_get_filetype filename ++ crlf ++ crlf)
        ++ srcp)
  ]

  -- `stale` gives what the arrays that are not initialised hold: `method` and `uri`, which `sscanf`
  -- leaves alone when the line has no such word, and `buf` here and in `request_read_headers`.
  unfoldable pub request_handle : ℕ → (ℕ → Bytes) → Bytes → Option Outcome
  request_handle fuel stale input =
      let (buf', rest) = readline maxbuf (stale 2) input in
      let parts = words (cstr buf') in
      let method = get_or parts 0 (stale 0) in
      let uri = get_or parts 1 (stale 1) in
      if not (str_eq (map lower method) (codes "get"))
      then some (Outcome.refused (unsupported method))
      else elim (request_read_headers fuel (stale 3) rest) [
        | none ↦ none
        | some rest' ↦
            let t = request_parse_uri uri in
            elim (stat t.filename) [
              | none ↦ some (Outcome.refused (not_found t.filename))
              | some sbuf ↦
                  if t.is_static
                  then (if not (s_isreg sbuf.st_mode && s_irusr sbuf.st_mode)
                      then some (Outcome.refused (unreadable t.filename))
                      else some (request_serve_static t.filename sbuf.st_size))
                  else (if not (s_isreg sbuf.st_mode && s_ixusr sbuf.st_mode)
                      then some (Outcome.refused (not_runnable t.filename))
                      else some (request_serve_dynamic t.filename t.cgiargs))
            ]
      ]

  -- What `file_size` returns for the name in a request.
  unfoldable pub sized : Target → Sized
  sized t = elim (stat t.filename) [
    | none ↦ Sized.null (not_found t.filename)
    | some sbuf ↦ Sized.infor (record {
      sbuf = sbuf;
      filename = t.filename;
      cgiargs = t.cgiargs;
      is_static = t.is_static;
    })
  ]

  unfoldable pub file_size : ℕ → (ℕ → Bytes) → Bytes → Option Sized
  file_size fuel stale input =
      let (buf', rest) = readline maxbuf (stale 2) input in
      let parts = words (cstr buf') in
      let method = get_or parts 0 (stale 0) in
      let uri = get_or parts 1 (stale 1) in
      if not (str_eq (map lower method) (codes "get"))
      then some (Sized.null (unsupported method))
      else elim (request_read_headers fuel (stale 3) rest) [
        | none ↦ none
        | some rest' ↦ some (sized (request_parse_uri uri))
      ]

  unfoldable pub request_handle_infor : RequestInfor → Outcome
  request_handle_infor r =
      if r.is_static
      then (if not (s_isreg r.sbuf.st_mode && s_irusr r.sbuf.st_mode)
          then Outcome.refused (unreadable r.filename)
          else request_serve_static r.filename r.sbuf.st_size)
      else (if not (s_isreg r.sbuf.st_mode && s_ixusr r.sbuf.st_mode)
          then Outcome.refused (not_runnable r.filename)
          else request_serve_dynamic r.filename r.cgiargs)
