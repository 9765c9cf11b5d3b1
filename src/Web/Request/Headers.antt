-- ===== src/Web/Request/Headers.antt =====
-- `request_read_headers` of concurrency-webserver/src_multi/request.c, on `readline` of io_helper.c.
use ostep_projects_finish.Common.{
  ℕ, zero, suc, ◌+◌, ◌-◌, ◌<◌, ◌≡◌, ◌≢◌, refl, ap, ◌∙◌, true, false, none, some, List, [], ◌∷◌,
  ◌++◌, length, drop, All, arith, if◌then◌else◌, str_eq, str_eq_refl, ne→==,
}
use ostep_projects_finish.Common.Text.{Bytes, cstr, crlf}
use ostep_projects_finish.Web.Request.{maxbuf, read_bytes, readline, request_read_headers}

-- A line without its newline: no NUL, no newline, and short enough for the buffer.
abbrev pub IsText : Bytes → Type 0
IsText l = All (λ c. (c ≢ 0) × (c ≢ 10)) l

pub read_bytes-line :
    (rounds n : ℕ) (l rest : Bytes)
    → IsText l
    → length l < rounds
    → read_bytes rounds n (l ++ (10 ∷ rest)) ≡ (l ++ (10 ∷ []), true, rest)
unfolding read_bytes
read_bytes-line zero n l rest t h = absurd (omega arith)
read_bytes-line (suc rounds) n [] rest t h = refl
read_bytes-line (suc rounds) n (c ∷ l) rest t h =
    rw (ne→== c 10 t.0.1, read_bytes-line rounds (n + 1) l rest t.1 (omega arith)) refl

pub cstr-line : (l mem : Bytes) → IsText l → cstr ((l ++ (10 ∷ [])) ++ (0 ∷ mem)) ≡ l ++ (10 ∷ [])
cstr-line [] mem t = refl
cstr-line (c ∷ l) mem t = rw (ne→== c 0 t.0.0, cstr-line l mem t.1) refl

-- A header: a line of text with its newline that is not the empty line of HTTP, `\r\n`.
abbrev pub IsHeader : Bytes → Type 0
IsHeader l = IsText l × (length l < maxbuf - 1) × (str_eq (l ++ (10 ∷ [])) crlf ≡ false)

abbrev pub all_lines : List Bytes → Bytes → Bytes
all_lines [] rest = crlf ++ rest
all_lines (l ∷ ls) rest = l ++ (10 ∷ all_lines ls rest)

pub readline_rest :
    (l buf rest : Bytes)
    → IsText l
    → length l < maxbuf - 1
    → (cstr ((readline maxbuf buf (l ++ (10 ∷ rest))).0) ≡ l ++ (10 ∷ []))
      × ((readline maxbuf buf (l ++ (10 ∷ rest))).1 ≡ rest)
unfolding readline
readline_rest l buf rest t h =
    rw (read_bytes-line (maxbuf - 1) 0 l rest t h)
      (cstr-line l (drop (suc (length (l ++ (10 ∷ [])))) buf) t, refl)

read_header :
    (fuel : ℕ) (buf l rest : Bytes)
    → IsHeader l
    → request_read_headers (suc fuel) buf (l ++ (10 ∷ rest))
      ≡ request_read_headers fuel ((readline maxbuf buf (l ++ (10 ∷ rest))).0) rest
unfolding request_read_headers
read_header fuel buf l rest h = let (c, r) = readline_rest l buf rest h.0 h.1 in rw (c, h.2, r) refl

read_end :
    (fuel : ℕ) (buf rest : Bytes) → request_read_headers (suc fuel) buf (crlf ++ rest) ≡ some rest
unfolding request_read_headers
read_end fuel buf rest =
    let (c, r) = readline_rest (13 ∷ []) buf rest ((omega arith, omega arith), tt) (omega arith) in
    rw (c, r)
      (ap
        (λ b.
          if b
          then some rest
          else request_read_headers fuel ((readline maxbuf buf (crlf ++ rest)).0) rest)
        (str_eq_refl crlf))

-- On header lines that fit the buffer, hold no NUL and are not empty, followed by an empty line,
-- `request_read_headers` ends after one call of `readline` for each line, whatever its buffer held,
-- and leaves just what is behind the empty line to read.
pub request_read_headers-all_lines :
    (ls : List Bytes) (buf rest : Bytes)
    → All IsHeader ls
    → request_read_headers (suc (length ls)) buf (all_lines ls rest) ≡ some rest
request_read_headers-all_lines [] buf rest h = read_end 0 buf rest
request_read_headers-all_lines (l ∷ ls) buf rest h =
    read_header (suc (length ls)) buf l (all_lines ls rest) h.0
    ∙ request_read_headers-all_lines ls ((readline maxbuf buf (l ++ (10 ∷ all_lines ls rest))).0)
        rest h.1

-- When the client closes the connection in front of the headers, `request_read_headers` never ends: no
-- number of calls of `readline` is enough.
pub request_read_headers_closed : (fuel : ℕ) (buf : Bytes) → request_read_headers fuel buf [] ≡ none
unfolding request_read_headers readline read_bytes str_eq
request_read_headers_closed zero buf = refl
request_read_headers_closed (suc fuel) buf = request_read_headers_closed fuel (0 ∷ drop 1 buf)
