-- ===== src/Shell/Part.antt =====
-- A part of a line that starts one program, in the main loop of processes-shell/wish3.c.
use ostep_projects_finish.Common.{
  ℕ, ◌+◌, ◌<◌, ◌≡◌, refl, ap, true, false, Option, none, some, List, [], ◌∷◌, ◌++◌, length, leb,
  ◌==◌, if◌then◌else◌, codes, str_eq, Bool-cases, inl, inr, arith,
}
use ostep_projects_finish.Common.Text.{Bytes}
use ostep_projects_finish.Shell.{input_fix, exec_zx, names_fit, max_parameter}
use ostep_projects_finish.Shell.Loop.{
  Command, Event, Wish, next, is_blank, is_newline, is_redirect, strsep, pieces, is_skipped,
  count_byte, max_list, System, enqueue_found, enqueue, execute,
}
use ostep_projects_finish.Shell.Line.{finish_round, do_piece, do_pieces, do_part}

-- The shell between two parts of a line, or, when `n` is 1, behind the program of a part.
abbrev pub counted :
    ℕ → List Bytes → Bytes → Option Bytes → Bytes → List Command → List Event → Wish
counted n path fold output temp queued events = record {
  command_path = path;
  fold = fold;
  output = output;
  redirect = 0;
  redirect_label = false;
  count_file = n;
  temp = temp;
  label = false;
  file = none;
  queued = queued;
  events = events;
}

abbrev pub newline : Bytes
newline = 10 ∷ []

pub pieces-one :
    (text : Bytes)
    → count_byte 62 text ≡ 0
    → count_byte 10 text ≡ 0
    → pieces is_redirect (text ++ newline) ≡ text ∷ [] ∷ []
unfolding pieces
pieces-one [] h k = refl
pieces-one (c ∷ text) h k = elim (Bool-cases (c == 62)) [
  | inl e ↦ absurd (omega (arith, rw e at h))
  | inr e ↦ elim (Bool-cases (c == 10)) [
    | inl f ↦ absurd (omega (arith, rw f at k))
    | inr f ↦ rw (e, f, pieces-one text (omega (arith, rw e at h)) (omega (arith, rw f at k))) refl
  ]
]

lt→leb_false : (q : List Command) → length q < max_list → leb max_list (length q) ≡ false
lt→leb_false q h = ground arith

pub count-newline : (text : Bytes) → count_byte 62 (text ++ newline) ≡ count_byte 62 text
count-newline [] = refl
count-newline (c ∷ text) = ap (λ n. (if c == 62 then 1 else 0) + n) (count-newline text)

module _ (sys : System) where
  -- A part that starts a program: it has no '>', is not built in, and the program is found. It has at
  -- most four arguments, and the names that are tried have less than 200 bytes.
  pub record IsPlain (path : List Bytes) (part : Bytes) (name : Bytes) (parameter : List Bytes)
      : Type 0 where
    pub text : Bytes
    pub token : Bytes
    pub rest : Bytes
    pub kept : is_skipped part ≡ false
    pub fixes : input_fix sys.before (part ++ newline) ≡ some (text ++ newline)
    pub no_redirect : count_byte 62 text ≡ 0
    pub one_line : count_byte 10 text ≡ 0
    pub some_text : is_skipped text ≡ false
    pub splits : strsep is_blank (text ++ newline) ≡ (token, some rest)
    pub not_exit : str_eq token (codes "exit") ≡ false
    pub not_cd : str_eq token (codes "cd") ≡ false
    pub not_path : str_eq token (codes "path") ≡ false
    pub parses : exec_zx sys.access token (strsep is_newline rest).0 path ≡ some (name, parameter)
    pub found : sys.access name ≡ true
    pub fits : names_fit sys.access token path ≡ true
    pub ends : leb max_parameter (length parameter) ≡ false

  abbrev pub queue_of : Bytes → List Bytes → Command
  queue_of name parameter = record {
    final_command = name;
    parameter = parameter;
    label = false;
    file = none;
  }

  module _ (path : List Bytes) (fold : Bytes) (output : Option Bytes) where
    do_piece_empty :
        (n : ℕ) (temp : Bytes) (q : List Command) (e : List Event)
        → do_piece sys [] (counted n path fold output temp q e)
          ≡ some (next, counted n path fold output temp q e)
    unfolding do_piece str_eq
    do_piece_empty n temp q e = refl

    enqueue-plain :
        (part name : Bytes) (ps : List Bytes) (temp : Bytes) (q : List Command) (e : List Event)
        → (p : IsPlain path part name ps) → length q < max_list
        → enqueue sys p.token (strsep is_newline p.rest).0 (counted 0 path fold output temp q e)
          ≡ some (counted 0 path fold output temp (q ++ (queue_of name ps ∷ [])) e)
    unfolding enqueue enqueue_found
    enqueue-plain part name ps temp q e p room =
        rw (enqueue, p.fits, p.parses, enqueue_found, p.found, lt→leb_false q room, p.ends) refl

    execute-plain :
        (part name : Bytes) (ps : List Bytes) (temp : Bytes) (q : List Command) (e : List Event)
        → (p : IsPlain path part name ps) → length q < max_list
        → execute sys (p.text ++ newline) (counted 0 path fold output temp q e)
          ≡ some (next, counted 0 path fold output temp (q ++ (queue_of name ps ∷ [])) e)
    unfolding execute
    execute-plain part name ps temp q e p room =
        rw
          (
            execute,
            p.splits,
            p.splits,
            p.not_exit,
            p.not_cd,
            p.not_path,
            enqueue-plain part name ps temp q e p room,
          )
          refl

    do_piece-plain :
        (part name : Bytes) (ps : List Bytes) (temp : Bytes) (q : List Command) (e : List Event)
        → (p : IsPlain path part name ps) → length q < max_list
        → do_piece sys p.text (counted 0 path fold output temp q e)
          ≡ some (
            next,
            counted 1 path fold output (p.text ++ newline) (q ++ (queue_of name ps ∷ [])) e,
          )
    unfolding finish_round do_piece
    do_piece-plain part name ps temp q e p room =
        rw (do_piece, p.some_text, execute-plain part name ps (p.text ++ newline) q e p room) refl

    do_pieces-plain :
        (part name : Bytes) (ps : List Bytes) (temp : Bytes) (q : List Command) (e : List Event)
        → (p : IsPlain path part name ps) → length q < max_list
        → do_pieces sys ([] ∷ p.text ∷ [] ∷ []) (counted 0 path fold output temp q e)
          ≡ some (
            false,
            counted 1 path fold output (p.text ++ newline) (q ++ (queue_of name ps ∷ [])) e,
          )
    unfolding do_pieces
    do_pieces-plain part name ps temp q e p room =
        rw
          (
            do_pieces,
            do_piece_empty 0 temp q e,
            do_piece-plain part name ps temp q e p room,
            do_piece_empty 1 (p.text ++ newline) (q ++ (queue_of name ps ∷ [])) e,
          )
          refl

    pub do_part-plain :
        (part name : Bytes) (ps : List Bytes) (temp : Bytes) (q : List Command) (e : List Event)
        → (p : IsPlain path part name ps) → length q < max_list
        → do_part sys part (counted 0 path fold output temp q e)
          ≡ some (
            false,
            counted 0 path fold output (p.text ++ newline) (q ++ (queue_of name ps ∷ [])) e,
          )
    unfolding do_part
    do_part-plain part name ps temp q e p room =
        rw
          (
            do_part,
            p.kept,
            p.fixes,
            count-newline p.text,
            p.no_redirect,
            pieces-one p.text p.no_redirect p.one_line,
            do_pieces-plain part name ps temp q e p room,
          )
          refl
