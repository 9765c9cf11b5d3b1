-- ===== src/Web/Single/Clients.antt =====
-- concurrency-webserver/src: the server without threads and its clients, of wclient.c and others.
use ostep_projects_finish.Common.{
  ℕ, ◌-◌, ◌<◌, ◌≡◌, ◌≢◌, refl, true, Option, none, some, List, [], ◌∷◌, ◌++◌, map, length, get_or,
  All, str_eq, codes,
}
use ostep_projects_finish.Common.Text.{Bytes, words, lower}
use ostep_projects_finish.Web.Request.{
  maxbuf, Stat, Outcome, Sized, request_parse_uri, sized, request_handle, request_handle_infor,
}
use ostep_projects_finish.Web.Request.Headers.{IsText, readline_rest, request_read_headers_closed}
use ostep_projects_finish.Web.Client.{client_send}
use ostep_projects_finish.Web.Client.Fetch.{IsRequest}
use ostep_projects_finish.Web.Single.{Connection, onward, serve}

-- A run of wclient: what the server's arrays hold then, and the names of its host and of the file.
pub record Client : Type 0 where
  pub stale : ℕ → Bytes
  pub hostname : Bytes
  pub filename : Bytes

abbrev pub connection : (Bytes → Bytes → Bytes) → Client → Connection
connection sprintf_host c = (c.stale, client_send sprintf_host c.hostname c.filename)

abbrev pub IsClient : Client → Type 0
IsClient c = IsRequest c.hostname c.filename

-- The outcomes up to the first that ends the server.
abbrev pub up_to_death : List Outcome → List Outcome
up_to_death [] = []
up_to_death (Outcome.died ∷ os) = Outcome.died ∷ []
up_to_death (Outcome.refused r ∷ os) = Outcome.refused r ∷ up_to_death os
up_to_death (Outcome.served f r ∷ os) = Outcome.served f r ∷ up_to_death os
up_to_death (Outcome.ran f a r ∷ os) = Outcome.ran f a r ∷ up_to_death os

module _ (stat : Bytes → Option Stat) (mapped : Bytes → ℕ → Option Bytes) where
  -- What `file_size` and `request_handle_infor` of src_multi make of a file's name.
  abbrev pub outcome : Sized → Outcome
  outcome (Sized.null r) = Outcome.refused r
  outcome (Sized.infor r) = request_handle_infor stat mapped r

  abbrev pub response : Client → Outcome
  response c = outcome (sized stat mapped (request_parse_uri c.filename))

  -- A first line of a request for which the headers are read.
  pub record IsFirstLine (stale : ℕ → Bytes) (first : Bytes) : Type 0 where
    pub text : IsText first
    pub short : length first < maxbuf - 1
    pub gets :
        str_eq (map lower (get_or (words (first ++ (10 ∷ []))) 0 (stale 0))) (codes "get") ≡ true

  request_handle_closed :
      (fuel : ℕ) (stale : ℕ → Bytes) (first : Bytes)
      → IsFirstLine stale first
      → request_handle stat mapped fuel stale (first ++ (10 ∷ [])) ≡ none
  unfolding request_handle
  request_handle_closed fuel stale first f =
      let (c, r) = readline_rest first (stale 2) [] f.text f.short in
      rw (c, r, f.gets, request_read_headers_closed fuel (stale 3)) refl

  -- The server goes on behind the connection, if its request is ever over.
  abbrev pub Survives : Connection → Type 0
  Survives (stale, input) =
      (fuel : ℕ) → request_handle stat mapped fuel stale input ≢ some Outcome.died

  not_over :
      (o : Option Outcome) (rest : Option (List Outcome))
      → o ≢ some Outcome.died
      → rest ≡ none
      → elim o [ none ↦ none | some p ↦ onward p rest ] ≡ none
  not_over none rest h e = refl
  not_over (some Outcome.died) rest h e = absurd (h refl)
  not_over (some (Outcome.refused r)) rest h e = rw e refl
  not_over (some (Outcome.served f r)) rest h e = rw e refl
  not_over (some (Outcome.ran f a r)) rest h e = rw e refl

  -- When a client closes its connection behind the first line of a GET request, and no connection before
  -- it ends the server, the server never gets to a connection behind it: no fuel is enough for the loop.
  pub serve-closed :
      (fuel : ℕ) (pre post : List Connection) (stale : ℕ → Bytes) (first : Bytes)
      → All Survives pre
      → IsFirstLine stale first
      → serve stat mapped fuel (pre ++ ((stale, first ++ (10 ∷ [])) ∷ post)) ≡ none
  unfolding serve
  serve-closed fuel [] post stale first a f =
      rw (serve, request_handle_closed fuel stale first f) refl
  serve-closed fuel ((s, input) ∷ pre) post stale first a f =
      not_over (request_handle stat mapped fuel s input)
        (serve stat mapped fuel (pre ++ ((stale, first ++ (10 ∷ [])) ∷ post))) (a.0 fuel)
        (serve-closed fuel pre post stale first a.1 f)
