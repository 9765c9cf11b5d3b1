-- ===== src/Web/Options/Last.antt =====
-- concurrency-webserver/src_multi/wserver.c: what the loop over the options leaves in the locals of `main`.
use ostep_projects_finish.Common.{
  ℕ, ◌≡◌, refl, ap, ◌∙◌, Bool, true, false, ◌&&◌, Option, none, some, List, [], ◌∷◌, ◌==◌,
  if◌then◌else◌, arith,
}
use ostep_projects_finish.Common.Text.{Bytes}
use ostep_projects_finish.Web.Options.{
  ℤ, Settings, set_option, get_options, last_of, given, is_known, all_known,
}

module _ (atoi : Bytes → ℤ) where
  -- The settings with the arguments of the last options put in.
  abbrev pub lasts : List (ℕ × Bytes) → Settings → Settings
  lasts options s = record {
    root_dir = given (λ a. a) (last_of 100 options) s.root_dir;
    port = given atoi (last_of 112 options) s.port;
    buffer_num = given atoi (last_of 98 options) s.buffer_num;
    thread_num = given atoi (last_of 116 options) s.thread_num;
    schedule = given (λ a. a) (last_of 115 options) s.schedule;
  }

  given_or :
      {A : Type 0} (f : Bytes → A) (b : Bool) (a : Bytes) (later : Option Bytes) (x : A)
      → given f (elim later [ none ↦ if b then some a else none | some o ↦ some o ]) x
        ≡ given f later (if b then f a else x)
  given_or f true a none x = refl
  given_or f false a none x = refl
  given_or f b a (some o) x = refl

  -- The first option is overridden by the later ones with its letter.
  given_first :
      {A : Type 0} (f : Bytes → A) (c d : ℕ) (a : Bytes) (options : List (ℕ × Bytes)) (x : A)
      → given f (last_of c ((d, a) ∷ options)) x
        ≡ given f (last_of c options) (if d == c then f a else x)
  unfolding last_of
  given_first f c d a options x = given_or f (d == c) a (last_of c options) x

  abbrev overridden : ℕ → Bytes → Settings → Settings
  overridden c a s = record {
    root_dir = if c == 100 then a else s.root_dir;
    port = if c == 112 then atoi a else s.port;
    buffer_num = if c == 98 then atoi a else s.buffer_num;
    thread_num = if c == 116 then atoi a else s.thread_num;
    schedule = if c == 115 then a else s.schedule;
  }

  set_option-if :
      (c : ℕ) (a : Bytes) (s : Settings)
      → set_option atoi c a s ≡ (if is_known c then some (overridden c a s) else none)
  unfolding set_option
  set_option-if c a s = ground arith

  lasts-overridden :
      (c : ℕ) (a : Bytes) (options : List (ℕ × Bytes)) (s : Settings)
      → lasts options (overridden c a s) ≡ lasts ((c, a) ∷ options) s
  lasts-overridden c a options s =
      rw
        (
          given_first (λ o. o) 100 c a options s.root_dir,
          given_first atoi 112 c a options s.port,
          given_first atoi 98 c a options s.buffer_num,
          given_first atoi 116 c a options s.thread_num,
          given_first (λ o. o) 115 c a options s.schedule,
        )
        refl

  -- `main` refuses its arguments when `getopt` meets an unknown option; otherwise each local holds the
  -- argument of the last option with its letter, or what it was set to in front of the loop.
  pub get_options-last :
      (options : List (ℕ × Bytes)) (s : Settings)
      → get_options atoi options s ≡ (if all_known options then some (lasts options s) else none)
  unfolding get_options all_known
  get_options-last [] s = unfold last_of in refl
  get_options-last ((c, a) ∷ options) s =
      rw (get_options, set_option-if c a s)
        (next_option (is_known c) (
          get_options-last options (overridden c a s)
          ∙ ap (λ u. if all_known options then some u else none) (lasts-overridden c a options s)))
    where
      next_option :
          (b : Bool)
          → get_options atoi options (overridden c a s)
            ≡ (if all_known options then some (lasts ((c, a) ∷ options) s) else none)
          → (elim (if b then some (overridden c a s) else none) [
            | none ↦ none
            | some s' ↦ get_options atoi options s'
          ])
            ≡ (if b && all_known options then some (lasts ((c, a) ∷ options) s) else none)
      next_option true h = h
      next_option false h = refl
