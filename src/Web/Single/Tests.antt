-- ===== src/Web/Single/Tests.antt =====
-- Runs of the server without threads.
use ostep_projects_finish.Common.{
  ℕ, ◌≡◌, refl, true, Option, none, some, [], ◌∷◌, ◌++◌, codes, str_eq, arith,
}
use ostep_projects_finish.Common.Text.{Bytes}
use ostep_projects_finish.Web.Request.{Stat}
use ostep_projects_finish.Web.Client.{client_send}
use ostep_projects_finish.Web.Client
use ostep_projects_finish.Web.Options.{pos}
use ostep_projects_finish.Web.Single.{serve, main, usage, set_option, get_options}
use ostep_projects_finish.Web.Single.Clients.{Client, connection, IsFirstLine, serve-closed}

-- A `sprintf` that works in place.
abbrev in_place : Bytes → Bytes → Bytes
in_place text hostname = text ++ (codes "host: " ++ (hostname ++ codes "\n\r\n"))

abbrev files : Bytes → Option Stat
files name = some (record { st_mode = 33152; st_size = 2 })

abbrev contents : Bytes → ℕ → Option Bytes
contents name n = some (codes "hi")

abbrev client : Client
client = record { stale = λ i. []; hostname = codes "me"; filename = codes "/a" }

first-IsFirstLine : IsFirstLine files contents (λ i. []) (codes "GET /b")
first-IsFirstLine = record { text = omega arith; short = omega arith; gets = unfold str_eq in refl }

serve-closed_example :
    serve files contents 9
      ([] ++ ((λ i. [], codes "GET /b" ++ (10 ∷ [])) ∷ connection in_place client ∷ []))
    ≡ none
serve-closed_example =
    serve-closed files contents 9 [] (connection in_place client ∷ []) (λ i. []) (codes "GET /b") tt
      first-IsFirstLine

bad_option :
    main files contents (λ s. pos 0) (λ dir. true) (λ port. true) 2 ((98, codes "2") ∷ []) []
    ≡ some usage
unfolding main get_options set_option
bad_option = refl

client_without_file :
    Client.main (λ s. pos 0) (λ host port. none) in_place [] 2 [] (codes "here" ∷ codes "80" ∷ [])
    ≡ some Client.usage
unfolding Client.main
client_without_file = refl
