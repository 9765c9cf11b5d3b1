-- ===== src/MapReduce/Words.antt =====
-- `Map` of concurrency-mapreduce/wordcount.c emits the words of its file, one after another.
use ostep_projects_finish.Common.{
  ℕ, zero, suc, ◌+◌, ◌≤◌, ◌≡◌, ◌≢◌, refl, sym, ap, ◌∙◌, subst, Option, none, some, List, [], ◌∷◌,
  ◌++◌, append_assoc, append-nil, length, map, arith, All, ◌==◌, ==→eq, ne→==, Bool-cases, inl, inr,
  if◌then◌else◌,
}
use mathlib.Core.List.{map-append}
use ostep_projects_finish.Common.Text.{cstr}
use ostep_projects_finish.MapReduce.{Bytes, MapData, mr_emit}
use ostep_projects_finish.MapReduce.Mapper.{
  is_delim, getlines, strsep, emit_tokens, emit_lines, map_file,
}

-- A word in front of others, if it is one.
abbrev pub flush : Bytes → List Bytes → List Bytes
flush [] ws = ws
flush (c ∷ w) ws = (c ∷ w) ∷ ws

-- The words of a text: the longest blocks without a delimiter, of which `w` is read.
abbrev pub words_from : Bytes → List ℕ → List Bytes
words_from w [] = flush w []
words_from w (x ∷ s) =
    let rest = words_from [] s in
    let longer = words_from (w ++ (x ∷ [])) s in if is_delim x then flush w rest else longer

abbrev pub words_of : List ℕ → List Bytes
words_of = words_from []

-- The pair that is emitted for a word.
abbrev pub pair_of : Bytes → MapData
pair_of w = record { key = w; value = 49 ∷ []; part_number = 0 }

abbrev pub NoNul : List ℕ → Type 0
NoNul s = All (λ c. c ≢ 0) s

snoc_flush : (w : Bytes) (x : ℕ) (ws : List Bytes) → flush (w ++ (x ∷ [])) ws ≡ (w ++ (x ∷ [])) ∷ ws
snoc_flush [] x ws = refl
snoc_flush (c ∷ w) x ws = refl

-- The words of a text, by its first token.
words_after : Option Bytes → List Bytes
words_after none = []
words_after (some s) = words_of s

words_from-strsep :
    (w s : Bytes) → words_from w s ≡ flush (w ++ (strsep s).0) (words_after (strsep s).1)
unfolding strsep words_after
words_from-strsep w [] = ap (λ t. flush t []) (sym (append-nil w))
words_from-strsep w (x ∷ s) = elim (Bool-cases (is_delim x)) [
  | inl e ↦ rw e (ap (λ t. flush t (words_of s)) (sym (append-nil w)))
  | inr e ↦ rw e (
      words_from-strsep (w ++ (x ∷ [])) s
      ∙ ap (λ t. flush t (words_after (strsep s).1)) (append_assoc w (x ∷ []) (strsep s).0))
]

-- The rounds that the loop of `Map` still needs.
abbrev room : Option Bytes → ℕ
room none = 1
room (some s) = length s + 2

-- A token takes at least its delimiter away.
strsep-room : (s : Bytes) → room (strsep s).1 ≤ length s + 1
unfolding strsep
strsep-room [] = omega arith
strsep-room (x ∷ s) = elim (Bool-cases (is_delim x)) [
  | inl e ↦ rw e (omega arith)
  | inr e ↦ rw e (let h = strsep-room s in omega arith)
]

emit_tokens-words :
    (fuel : ℕ) (dummy : Option Bytes) (all_data : List MapData)
    → room dummy ≤ fuel
    → emit_tokens fuel dummy all_data ≡ some (all_data ++ map pair_of (words_after dummy))
unfolding emit_tokens words_after mr_emit
emit_tokens-words zero none all_data h = absurd (omega arith)
emit_tokens-words zero (some s) all_data h = absurd (omega arith)
emit_tokens-words (suc fuel) none all_data h = ap some (sym (append-nil all_data))
emit_tokens-words (suc fuel) (some s) all_data h =
    go (emit_tokens-words fuel) (strsep s).0 (strsep s).1 (let q = strsep-room s in omega arith)
    ∙ ap (λ ws. some (all_data ++ map pair_of ws)) (sym (words_from-strsep [] s))
  where
    go :
        ((l : Option Bytes) (d : List MapData)
          → room l ≤ fuel
          → emit_tokens fuel l d ≡ some (d ++ map pair_of (words_after l)))
        → (token : Bytes) (left : Option Bytes) → room left ≤ fuel
        → (elim token [
          | [] ↦ emit_tokens fuel left all_data
          | c ∷ cs ↦ emit_tokens fuel left (mr_emit (c ∷ cs) (49 ∷ []) all_data)
        ])
          ≡ some (all_data ++ map pair_of (flush token (words_after left)))
    go later [] left q = later left all_data q
    go later (c ∷ cs) left q =
        later left (all_data ++ (pair_of (c ∷ cs) ∷ [])) q
        ∙ ap some (append_assoc all_data (pair_of (c ∷ cs) ∷ []) (map pair_of (words_after left)))

NoNul-snoc : (s : List ℕ) (x : ℕ) → NoNul s → x ≢ 0 → NoNul (s ++ (x ∷ []))
NoNul-snoc [] x t h = (h, tt)
NoNul-snoc (c ∷ s) x t h = (t.0, NoNul-snoc s x t.1 h)

cstr_text : (s : List ℕ) → NoNul s → cstr s ≡ s
cstr_text [] t = refl
cstr_text (c ∷ s) t = rw (ne→== c 0 t.0, cstr_text s t.1) refl

-- Words do not go on across a newline.
words_from-newline :
    (w s f : List ℕ) → words_from w (s ++ (10 ∷ f)) ≡ words_from w (s ++ (10 ∷ [])) ++ words_of f
words_from-newline w [] f = flush_newline w
  where
    flush_newline : (v : Bytes) → flush v (words_of f) ≡ flush v [] ++ words_of f
    flush_newline [] = refl
    flush_newline (c ∷ v) = refl
words_from-newline w (x ∷ s) f = elim (Bool-cases (is_delim x)) [
  | inl e ↦ rw e (before_delim w (words_of (s ++ (10 ∷ []))) (words_from-newline [] s f))
  | inr e ↦ rw e (words_from-newline (w ++ (x ∷ [])) s f)
]
  where
    before_delim :
        (v : Bytes) (ws : List Bytes)
        → words_of (s ++ (10 ∷ f)) ≡ ws ++ words_of f
        → flush v (words_of (s ++ (10 ∷ f))) ≡ flush v ws ++ words_of f
    before_delim [] ws h = h
    before_delim (c ∷ v) ws h = ap (λ us. (c ∷ v) ∷ us) h

after_line : List Bytes → Option (List MapData) → Option (List MapData)
after_line lines none = none
after_line lines (some emitted) = emit_lines lines emitted

emit_one :
    (line : Bytes) (lines : List Bytes) (all_data : List MapData)
    → NoNul line
    → emit_lines (line ∷ lines) all_data
      ≡ emit_lines lines (all_data ++ map pair_of (words_of line))
unfolding emit_lines words_after after_line
emit_one line lines all_data t = ap (after_line lines) (
    ap (λ l. emit_tokens (length l + 2) (some l) all_data) (cstr_text line t)
    ∙ emit_tokens-words (length line + 2) (some line) all_data (omega arith))

map_lines :
    (line file : List ℕ) (all_data : List MapData)
    → NoNul line
    → NoNul file
    → emit_lines (getlines line file) all_data
      ≡ some (all_data ++ map pair_of (words_of (line ++ file)))
unfolding getlines
map_lines [] [] all_data l t = unfold emit_lines in ap some (sym (append-nil all_data))
map_lines (c ∷ line) [] all_data l t =
    emit_one (c ∷ line) [] all_data l
    ∙ no_lines (all_data ++ map pair_of (words_of (c ∷ line)))
    ∙ ap (λ s. some (all_data ++ map pair_of (words_of s))) (sym (append-nil (c ∷ line)))
  where
    no_lines : (d : List MapData) → emit_lines [] d ≡ some d
    no_lines d = unfold emit_lines in refl
map_lines line (x ∷ file) all_data l t = elim (Bool-cases (x == 10)) [
  | inl e ↦ rw e (
      emit_one (line ++ (x ∷ [])) (getlines [] file) all_data (NoNul-snoc line x l t.0)
      ∙ map_lines [] file (all_data ++ map pair_of (words_of (line ++ (x ∷ [])))) tt t.1
      ∙ ap some (
          append_assoc all_data (map pair_of (words_of (line ++ (x ∷ []))))
            (map pair_of (words_of file))
          ∙ ap (λ ps. all_data ++ ps)
              (sym (map-append pair_of (words_of (line ++ (x ∷ []))) (words_of file))
                ∙ ap (map pair_of) (
                    subst
                      (λ y.
                        words_of (line ++ (y ∷ [])) ++ words_of file
                        ≡ words_of (line ++ (y ∷ file)))
                      (sym (==→eq x 10 e)) (sym (words_from-newline [] line file))))))
  | inr e ↦ rw e (
      map_lines (line ++ (x ∷ [])) file all_data (NoNul-snoc line x l t.0) t.1
      ∙ ap (λ s. some (all_data ++ map pair_of (words_of s))) (append_assoc line (x ∷ []) file))
]

-- On a file without a NUL, `Map` ends, and behind what was emitted before there is a pair of each word
-- of the file, in order; a word is a longest block without a space, tab, newline or carriage return.
pub map_file-words :
    (file : List ℕ) (all_data : List MapData)
    → NoNul file
    → map_file file all_data ≡ some (all_data ++ map pair_of (words_of file))
unfolding map_file
map_file-words file all_data t = map_lines [] file all_data tt t
