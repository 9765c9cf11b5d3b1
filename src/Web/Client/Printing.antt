-- ===== src/Web/Client/Printing.antt =====
-- What `client_print` of concurrency-webserver/src_multi/wclient.c prints of an answer.
use ostep_projects_finish.Common.{
  ℕ, zero, suc, ◌+◌, ◌-◌, ◌<◌, ◌≡◌, refl, ap, ◌∙◌, true, Option, some, List, [], ◌∷◌, ◌++◌, length,
  append_assoc, All, arith, ltb, lt→ltb, str_eq_refl, ne→==, codes,
}
use mathlib.Core.Option
use ostep_projects_finish.Common.Text.{Bytes, crlf}
use ostep_projects_finish.Web.Request.{maxbuf, readline}
use ostep_projects_finish.Web.Request.Headers.{IsText, IsHeader, all_lines, readline_rest}
use ostep_projects_finish.Web.Client.{count_read, returned, print_body, print_headers, client_print}

count_read-line :
    (rounds n : ℕ) (l rest : Bytes)
    → IsText l
    → length l < rounds
    → count_read rounds n (l ++ (10 ∷ rest)) ≡ n + length l
unfolding count_read
count_read-line zero n l rest t h = absurd (omega arith)
count_read-line (suc rounds) n [] rest t h = omega arith
count_read-line (suc rounds) n (c ∷ l) rest t h =
    rw (ne→== c 10 t.0.1) (omega (arith, count_read-line rounds (n + 1) l rest t.1 (omega arith)))

-- A line of text that is not empty and fits the buffer.
abbrev pub IsFull : Bytes → Type 0
IsFull l = IsText l × (0 < length l) × (length l < maxbuf - 1)

-- Lines, each with its newline, and what stands behind them.
abbrev pub joined : List Bytes → Bytes → Bytes
joined [] tail = tail
joined (l ∷ ls) tail = l ++ (10 ∷ joined ls tail)

abbrev pub headers_printed : List Bytes → Bytes → Bytes
headers_printed [] rest = rest
headers_printed (l ∷ ls) rest = codes "Header: " ++ ((l ++ (10 ∷ [])) ++ headers_printed ls rest)

-- The state behind the `readline` that reads a line.
returned-line : (l rest : Bytes) → IsFull l → ltb 0 (returned (l ++ (10 ∷ rest))) ≡ true
returned-line l rest f =
    lt→ltb 0 _ (omega (arith, count_read-line (maxbuf - 1) 0 l rest f.0 f.2, f.1))

-- The call of `readline` behind a printed line, and the loop over the body behind it.
abbrev body_from : ℕ → Bytes → Bytes → Option Bytes
body_from fuel buf input =
    let (buf', rest) = readline maxbuf buf input in print_body fuel buf' (returned input) rest

body_from-line :
    (fuel : ℕ) (buf l rest : Bytes)
    → IsFull l
    → body_from (suc fuel) buf (l ++ (10 ∷ rest))
      ≡ Option.map
          (λ out. (l ++ (10 ∷ [])) ++ out)
          (body_from fuel (readline maxbuf buf (l ++ (10 ∷ rest))).0 rest)
unfolding print_body
body_from-line fuel buf l rest f =
    let (c, r) = readline_rest l buf rest f.0 f.2 in rw (returned-line l rest f, c, r) refl

body_from_end :
    (fuel : ℕ) (buf tail : Bytes) → returned tail ≡ 0 → body_from (suc fuel) buf tail ≡ some []
unfolding print_body
body_from_end fuel buf tail e = rw e refl

body_from-joined :
    (ls : List Bytes) (buf tail : Bytes)
    → All IsFull ls
    → returned tail ≡ 0
    → body_from (suc (length ls)) buf (joined ls tail) ≡ some (joined ls [])
body_from-joined [] buf tail f e = body_from_end 0 buf tail e
body_from-joined (l ∷ ls) buf tail f e =
    body_from-line (suc (length ls)) buf l (joined ls tail) f.0
    ∙ ap (Option.map (λ out. (l ++ (10 ∷ [])) ++ out)) (body_from-joined ls _ tail f.1 e)
    ∙ ap some (append_assoc l (10 ∷ []) (joined ls []))

-- A header that is not empty.
abbrev pub IsFullHeader : Bytes → Type 0
IsFullHeader l = IsHeader l × (0 < length l)

client_print-header :
    (fuel : ℕ) (buf l rest : Bytes)
    → IsFullHeader l
    → client_print (suc fuel) buf (l ++ (10 ∷ rest))
      ≡ Option.map
          (λ out. codes "Header: " ++ ((l ++ (10 ∷ [])) ++ out))
          (client_print fuel (readline maxbuf buf (l ++ (10 ∷ rest))).0 rest)
unfolding client_print print_headers
client_print-header fuel buf l rest f =
    let (c, r) = readline_rest l buf rest f.0.0 f.0.1 in
    rw (returned-line l rest (f.0.0, f.1, f.0.1), c, r, f.0.2) refl

client_print_end :
    (fuel : ℕ) (buf rest : Bytes)
    → client_print (suc fuel) buf (crlf ++ rest)
      ≡ body_from fuel (readline maxbuf buf (crlf ++ rest)).0 rest
unfolding client_print print_headers
client_print_end fuel buf rest =
    let (c, r) = readline_rest (13 ∷ []) buf rest ((omega arith, omega arith), tt) (omega arith) in
    rw (c, r, str_eq_refl crlf) refl

print_lines :
    (hs ls : List Bytes) (buf tail : Bytes)
    → All IsFullHeader hs
    → All IsFull ls
    → returned tail ≡ 0
    → client_print (length hs + (2 + length ls)) buf (all_lines hs (joined ls tail))
      ≡ some (headers_printed hs (joined ls []))
print_lines [] ls buf tail h f e =
    ap (λ k. client_print k buf (crlf ++ joined ls tail))
      (let z : 0 + (2 + length ls) ≡ suc (suc (length ls)) = omega arith in z)
    ∙ client_print_end (suc (length ls)) buf (joined ls tail)
    ∙ body_from-joined ls _ tail f e
print_lines (l ∷ hs) ls buf tail h f e =
    ap (λ k. client_print k buf (l ++ (10 ∷ all_lines hs (joined ls tail))))
      (let z : suc (length hs) + (2 + length ls) ≡ suc (length hs + (2 + length ls)) =
          omega arith in
        z)
    ∙ client_print-header (length hs + (2 + length ls)) buf l (all_lines hs (joined ls tail)) h.0
    ∙ ap (Option.map (λ out. codes "Header: " ++ ((l ++ (10 ∷ [])) ++ out)))
        (print_lines hs ls _ tail h.1 f e)

-- Of an answer whose headers are lines of text, followed by an empty line and a body of lines of text,
-- none of them empty and all shorter than the buffer, `client_print` prints each header behind "Header: "
-- and the body as it is, with one round of its loops for each line and two more.
pub client_print-all_lines :
    (hs ls : List Bytes) (buf : Bytes)
    → All IsFullHeader hs
    → All IsFull ls
    → client_print (length hs + (2 + length ls)) buf (all_lines hs (joined ls []))
      ≡ some (headers_printed hs (joined ls []))
client_print-all_lines hs ls buf h f = print_lines hs ls buf [] h f (unfold count_read in refl)

-- When such a body goes on with an empty line, `client_print` ends there, and prints nothing of what
-- follows.
pub client_print_empty_line :
    (hs ls : List Bytes) (buf rest : Bytes)
    → All IsFullHeader hs
    → All IsFull ls
    → client_print (length hs + (2 + length ls)) buf (all_lines hs (joined ls (10 ∷ rest)))
      ≡ some (headers_printed hs (joined ls []))
client_print_empty_line hs ls buf rest h f =
    print_lines hs ls buf (10 ∷ rest) h f (unfold count_read in refl)
