-- ===== src/Shell/Pieces.antt =====
-- A round over a piece in processes-shell/wish3.c queues only programs that `access` has found.
use ostep_projects_finish.Common.{
  ◌≡◌, Bool, true, false, Option, none, some, List, [], ◌∷◌, ◌||◌, ◌++◌, length, leb, ltb, ◌==◌,
  if◌then◌else◌, codes, str_eq, All, Bool-cases, inl, inr,
}
use ostep_projects_finish.Common.Text.{Bytes}
use ostep_projects_finish.Shell.{input_fix, exec_zx, names_fit, max_parameter, path_zx}
use ostep_projects_finish.Shell.Loop.{
  Command, Event, error_message, change_dir, open_file, run, wait, Wish, Flow, next, stop, exited,
  is_blank, is_newline, strsep, is_skipped, has_late_space, note, max_list, System, enqueue_found,
  enqueue, change, execute,
}
use ostep_projects_finish.Shell.Line.{finish_round, guarded, redirected, do_piece}

All-snoc :
    {A : Type 0} (P : A → Type 0) (xs : List A) (x : A) → All P xs → P x → All P (xs ++ (x ∷ []))
All-snoc P [] x a p = (p, tt)
All-snoc P (y ∷ xs) x a p = (a.0, All-snoc P xs x a.1 p)

module _ (sys : System) where
  -- A program that is started is one that `access` has found.
  abbrev pub IsFound : Event → Type 0
  IsFound error_message = Unit {0}
  IsFound (change_dir path) = Unit {0}
  IsFound (open_file name) = Unit {0}
  IsFound wait = Unit {0}
  IsFound (run final_command parameter output environment) = sys.access final_command ≡ true

  abbrev pub IsReady : Command → Type 0
  IsReady c = sys.access c.final_command ≡ true

  abbrev pub IsSafe : Wish → Type 0
  IsSafe s = All IsFound s.events × All IsReady s.queued

  abbrev pub After : {A : Type 0} → Option (A × Wish) → Type 0
  After none = Unit {0}
  After (some (a, s)) = IsSafe s

  abbrev pub AfterAll : Option Wish → Type 0
  AfterAll none = Unit {0}
  AfterAll (some s) = IsSafe s

  pub note-IsSafe : (e : Event) (s : Wish) → IsFound e → IsSafe s → IsSafe (note e s)
  note-IsSafe e s f safe = (All-snoc IsFound s.events e safe.0 f, safe.1)

  enqueue_found-IsSafe :
      (r : Option (Bytes × List Bytes)) (s : Wish) → IsSafe s → AfterAll (enqueue_found sys r s)
  unfolding enqueue_found
  enqueue_found-IsSafe none s safe = tt
  enqueue_found-IsSafe (some (c, ps)) s safe = elim (Bool-cases (sys.access c)) [
    | inl e ↦
        rw e (elim (Bool-cases (leb max_list (length s.queued) || leb max_parameter (length ps))) [
          | inl full ↦ rw full tt
          | inr room ↦ rw room (safe.0, All-snoc IsReady s.queued _ safe.1 e)
        ])
    | inr e ↦ rw e (note-IsSafe error_message s tt safe)
  ]

  enqueue-IsSafe : (token para : Bytes) (s : Wish) → IsSafe s → AfterAll (enqueue sys token para s)
  unfolding enqueue
  enqueue-IsSafe token para s safe = elim (Bool-cases (names_fit sys.access token s.command_path)) [
    | inl e ↦ rw e (enqueue_found-IsSafe (exec_zx sys.access token para s.command_path) s safe)
    | inr e ↦ rw e tt
  ]

  change-IsSafe : (path : Bytes) (s : Wish) → IsSafe s → IsSafe (change sys path s)
  unfolding change
  change-IsSafe path s safe =
      let tried = note-IsSafe (change_dir path) s tt safe in
      elim (Bool-cases (sys.chdir s.events path)) [
        | inl e ↦ rw e tried
        | inr e ↦ rw e (note-IsSafe error_message (note (change_dir path) s) tt tried)
      ]

  flow_keeps :
      (flow : Flow) (r : Option Wish)
      → AfterAll r
      → After (elim r [ none ↦ none | some s' ↦ some (flow, s') ])
  flow_keeps flow none h = tt
  flow_keeps flow (some s) h = h

  execute-IsSafe : (final_str : Bytes) (s : Wish) → IsSafe s → After (execute sys final_str s)
  unfolding execute
  execute-IsSafe final_str s safe = go (strsep is_blank final_str).0 (strsep is_blank final_str).1
    where
      new_path :
          (r : Option (List Bytes))
          → After (elim r [
            | none ↦ none
            | some command_path ↦ some (next, record s { command_path = command_path })
          ])
      new_path none = tt
      new_path (some ps) = safe

      go :
          (token : Bytes) (left : Option Bytes)
          → After (elim left [
            | none ↦ none
            | some rest ↦
                if str_eq token (codes "exit")
                then (if length rest == 0
                    then some (exited, s)
                    else some (stop, note error_message s))
                else if str_eq token (codes "cd")
                then some (next, change sys (strsep is_blank rest).0 s)
                else if str_eq token (codes "path")
                then elim (path_zx 0 (strsep is_newline rest).0) [
                  | none ↦ none
                  | some command_path ↦ some (next, record s { command_path = command_path })
                ]
                else elim (enqueue sys token (strsep is_newline rest).0 s) [
                  | none ↦ none
                  | some s' ↦ some (next, s')
                ]
          ])
      go token none = tt
      go token (some rest) = elim (Bool-cases (str_eq token (codes "exit"))) [
        | inl e ↦ rw e (elim (Bool-cases (length rest == 0)) [
          | inl q ↦ rw q safe
          | inr q ↦ rw q (note-IsSafe error_message s tt safe)
        ])
        | inr e ↦ rw e (elim (Bool-cases (str_eq token (codes "cd"))) [
          | inl c ↦ rw c (change-IsSafe (strsep is_blank rest).0 s safe)
          | inr c ↦ rw c (elim (Bool-cases (str_eq token (codes "path"))) [
            | inl p ↦ rw p (new_path (path_zx 0 (strsep is_newline rest).0))
            | inr p ↦ rw p (
                flow_keeps next (enqueue sys token (strsep is_newline rest).0 s)
                  (enqueue-IsSafe token (strsep is_newline rest).0 s safe))
          ])
        ])
      ]

  finish_round-IsSafe :
      (kept : Option Bytes) (r : Option (Flow × Wish)) → After r → After (finish_round sys kept r)
  unfolding finish_round
  finish_round-IsSafe kept none h = tt
  finish_round-IsSafe kept (some (next, s)) h = h
  finish_round-IsSafe kept (some (stop, s)) h = h
  finish_round-IsSafe kept (some (exited, s)) h = h

  guarded-IsSafe : (final_str : Bytes) (s : Wish) → IsSafe s → After (guarded sys final_str s)
  guarded-IsSafe final_str s safe = elim (Bool-cases (s.redirect == 0)) [
    | inl e ↦ rw e (execute-IsSafe final_str s safe)
    | inr e ↦ rw e safe
  ]

  pub either-IsSafe : (b : Bool) (s t : Wish) → IsSafe s → IsSafe t → IsSafe (if b then s else t)
  either-IsSafe true s t a b = a
  either-IsSafe false s t a b = b

  redirected-IsSafe : (name : Bytes) (s : Wish) → IsSafe s → After (redirected sys name s)
  unfolding redirected
  redirected-IsSafe name s safe =
      go (if s.label then record s { file = some name } else s)
        (either-IsSafe s.label (record s { file = some name }) s safe safe)
    where
      go :
          (s' : Wish)
          → IsSafe s'
          → After (
              if has_late_space name
              then some (stop, s')
              else finish_round sys s.output (
                  guarded sys s.temp (record (note (open_file name) s') {
                    output = if sys.opens name then some name else s.output;
                  })))
      go s' h = elim (Bool-cases (has_late_space name)) [
        | inl e ↦ rw e h
        | inr e ↦ rw e (
            finish_round-IsSafe s.output _ (
              guarded-IsSafe s.temp
                (record (note (open_file name) s') {
                  output = if sys.opens name then some name else s.output;
                })
                (note-IsSafe (open_file name) s' tt h)))
      ]

  pub do_piece-IsSafe : (redi_char : Bytes) (s : Wish) → IsSafe s → After (do_piece sys redi_char s)
  unfolding do_piece
  do_piece-IsSafe redi_char s safe = elim (Bool-cases (ltb 1 s.redirect)) [
    | inl a ↦ rw a (note-IsSafe error_message s tt safe)
    | inr a ↦ rw a (elim (Bool-cases (is_skipped redi_char)) [
      | inl b ↦ rw b safe
      | inr b ↦ rw b (elim (Bool-cases (s.count_file == 0)) [
        | inl c ↦ rw c (
            finish_round-IsSafe s.output _ (
              guarded-IsSafe (redi_char ++ (10 ∷ [])) (record s { temp = redi_char ++ (10 ∷ []) })
                safe))
        | inr c ↦ rw c (go (input_fix sys.before redi_char))
      ])
    ])
  ]
    where
      go :
          (r : Option Bytes)
          → After (elim r [ none ↦ none | some final_file_str ↦ redirected sys final_file_str s ])
      go none = tt
      go (some name) = redirected-IsSafe name s safe
