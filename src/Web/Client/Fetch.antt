-- ===== src/Web/Client/Fetch.antt =====
-- A request of concurrency-webserver/src_multi/wclient.c at the server of request.c, and the answer at the
-- client.
use ostep_projects_finish.Common.{
  ℕ, ◌+◌, ◌-◌, ◌<◌, ◌≡◌, ◌≢◌, refl, sym, ap, ◌∙◌, false, Option, some, List, [], ◌∷◌, ◌++◌, length,
  length-append, append_assoc, All, All-append, arith, str_eq, codes,
}
use mathlib.Core.Bool.{false≢true}
use ostep_projects_finish.Common.Text.{Bytes, words, is_space}
use ostep_projects_finish.Web.Request.{
  maxbuf, request_read_headers, request_parse_uri, Stat, request_handle, sized, file_size,
}
use ostep_projects_finish.Web.Request.Headers.{
  IsText, IsHeader, all_lines, readline_rest, request_read_headers-all_lines,
}
use ostep_projects_finish.Web.Request.Access.{answer, request_handle-file_size}
use ostep_projects_finish.Web.Client.{client_send, IsInPlace}

-- A byte of a file's name: no NUL, and nothing that ends a word.
abbrev pub IsNameByte : ℕ → Type 0
IsNameByte c = (c ≢ 0) × (is_space c ≡ false)

-- The file's name is a word, and with the host's name it takes up no more than half of a buffer, which
-- leaves room for what the client and the server put around them.
pub record IsRequest (hostname filename : Bytes) : Type 0 where
  pub word : All IsNameByte filename
  pub some_name : 0 < length filename
  pub short : length filename + length hostname < 4096
  pub host : IsText hostname

words-space : (s : Bytes) → words (32 ∷ s) ≡ words s
words-space [] = refl
words-space (c ∷ s) = refl

words-word : (w s : Bytes) → All IsNameByte w → 0 < length w → words (w ++ (32 ∷ s)) ≡ w ∷ words s
words-word [] s n h = absurd (omega arith)
words-word (c ∷ []) s n h = rw (n.0.1, words-space s) refl
words-word (c ∷ d ∷ w) s n h = rw (n.0.1, n.1.0.1, words-word (d ∷ w) s n.1 (omega arith)) refl

text_byte : (c : ℕ) → IsNameByte c → (c ≢ 0) × (c ≢ 10)
text_byte c n = (n.0, λ e. false≢true (sym n.1 ∙ ap is_space e))

name-IsText : (w : Bytes) → All IsNameByte w → IsText w
name-IsText [] n = tt
name-IsText (c ∷ w) n = (text_byte c n.0, name-IsText w n.1)

-- The first line of the request, without its newline.
abbrev request_line : Bytes → Bytes
request_line filename = codes "GET " ++ (filename ++ codes " HTTP/1.1")

host_line : Bytes → Bytes
host_line hostname = codes "host: " ++ hostname

client_send-lines :
    (sprintf_host : Bytes → Bytes → Bytes) (hostname filename : Bytes)
    → IsInPlace sprintf_host
    → client_send sprintf_host hostname filename
      ≡ request_line filename ++ (10 ∷ all_lines (host_line hostname ∷ []) [])
unfolding client_send host_line
client_send-lines sprintf_host hostname filename in_place =
    in_place (codes "GET " ++ (filename ++ codes " HTTP/1.1\n")) hostname
    ∙ ap (λ t. codes "GET " ++ t)
        (append_assoc filename (codes " HTTP/1.1\n")
          (codes "host: " ++ (hostname ++ codes "\n\r\n")))
    ∙ ap (λ t. codes "GET " ++ t)
        (sym
          (append_assoc filename (codes " HTTP/1.1") (10 ∷ all_lines (host_line hostname ∷ []) [])))

request_line-IsText : (filename : Bytes) → All IsNameByte filename → IsText (request_line filename)
request_line-IsText filename n =
    All-append (λ c. (c ≢ 0) × (c ≢ 10)) (codes "GET ") (filename ++ codes " HTTP/1.1")
      (omega arith)
      (All-append (λ c. (c ≢ 0) × (c ≢ 10)) filename (codes " HTTP/1.1") (name-IsText filename n)
        (omega arith))

host_line-IsHeader :
    (hostname : Bytes)
    → IsText hostname
    → length hostname < maxbuf - 20
    → IsHeader (host_line hostname)
unfolding host_line str_eq
host_line-IsHeader hostname t h = (
  All-append (λ c. (c ≢ 0) × (c ≢ 10)) (codes "host: ") hostname (omega arith) t,
  omega arith,
  refl,
)

words-request_line :
    (filename : Bytes)
    → All IsNameByte filename
    → 0 < length filename
    → words (request_line filename ++ (10 ∷ [])) ≡ codes "GET" ∷ filename ∷ codes "HTTP/1.1" ∷ []
words-request_line filename n h =
    ap (λ t. words (codes "GET " ++ t)) (append_assoc filename (codes " HTTP/1.1") (10 ∷ []))
    ∙ words-word (codes "GET") (filename ++ codes " HTTP/1.1\n")
        ((omega arith, refl), ((omega arith, refl), ((omega arith, refl), tt))) (omega arith)
    ∙ ap (λ ws. codes "GET" ∷ ws) (words-word filename (codes "HTTP/1.1\n") n h)

module _ (stat : Bytes → Option Stat) (mapped : Bytes → ℕ → Option Bytes) where
  file_size-line :
      (first filename rest : Bytes) (ws : List Bytes) (stale : ℕ → Bytes)
      → IsText first
      → length first < maxbuf - 1
      → words (first ++ (10 ∷ [])) ≡ codes "GET" ∷ filename ∷ ws
      → request_read_headers 2 (stale 3) rest ≡ some []
      → file_size stat mapped 2 stale (first ++ (10 ∷ rest))
        ≡ some (sized stat mapped (request_parse_uri filename))
  unfolding file_size str_eq
  file_size-line first filename rest ws stale t h w headers =
      let (c, r) = readline_rest first (stale 2) rest t h in rw (c, r, w, headers, c, w) refl

  file_size-client_send :
      (sprintf_host : Bytes → Bytes → Bytes) (hostname filename : Bytes) (stale : ℕ → Bytes)
      → IsInPlace sprintf_host
      → IsRequest hostname filename
      → file_size stat mapped 2 stale (client_send sprintf_host hostname filename)
        ≡ some (sized stat mapped (request_parse_uri filename))
  file_size-client_send sprintf_host hostname filename stale in_place q =
      ap (file_size stat mapped 2 stale) (client_send-lines sprintf_host hostname filename in_place)
      ∙ file_size-line (request_line filename) filename (all_lines (host_line hostname ∷ []) [])
          (codes "HTTP/1.1" ∷ []) stale (request_line-IsText filename q.word)
          (omega (arith, length-append filename (codes " HTTP/1.1"), q.short))
          (words-request_line filename q.word q.some_name)
          (request_read_headers-all_lines (host_line hostname ∷ []) (stale 3) []
            (host_line-IsHeader hostname q.host (omega (arith, q.short)), tt))

  -- If `sprintf` works in place, what the client sends for a name is one request for it: whatever the server's arrays held, the
  -- server reads all of it and answers for the file or program of that name.
  pub request_handle-client_send :
      (sprintf_host : Bytes → Bytes → Bytes) (hostname filename : Bytes) (stale : ℕ → Bytes)
      → IsInPlace sprintf_host
      → IsRequest hostname filename
      → request_handle stat mapped 2 stale (client_send sprintf_host hostname filename)
        ≡ answer mapped stat (some (sized stat mapped (request_parse_uri filename)))
  request_handle-client_send sprintf_host hostname filename stale in_place q =
      request_handle-file_size stat mapped 2 stale (client_send sprintf_host hostname filename)
      ∙ ap (answer mapped stat)
          (file_size-client_send sprintf_host hostname filename stale in_place q)
