-- ===== src/Utilities/Search.antt =====
-- initial-utilities/wgrep/wgrep.c prints the lines that contain the word.
use ostep_projects_finish.Common.{
  suc, ◌≡◌, ◌↔◌, refl, sym, ap, ap₂, ◌∙◌, true, false, some, List, [], ◌∷◌, ◌++◌, length, arith,
  ◌==◌, Bool-cases, inl, inr, ==→eq, ==_refl,
}
use ostep_projects_finish.Common.Text.{Bytes, is_prefix, strstr}
use ostep_projects_finish.Utilities.Copy.{read_all-concat}
use ostep_projects_finish.Utilities.{read_all, concat, matching, wgrep}

-- The word is a part of the text.
abbrev pub Contains : Bytes → Bytes → Type 0
Contains s word = (front : Bytes) × (back : Bytes) × (s ≡ front ++ (word ++ back))

is_prefix-append : (p back : Bytes) → is_prefix p (p ++ back) ≡ true
is_prefix-append [] back = refl
is_prefix-append (x ∷ p) back = rw (==_refl x) (is_prefix-append p back)

is_prefix-back : (p s : Bytes) → is_prefix p s ≡ true → (back : Bytes) × (s ≡ p ++ back)
is_prefix-back [] s h = (s, refl)
is_prefix-back (x ∷ p) [] h = cc
is_prefix-back (x ∷ p) (y ∷ s) h = elim (Bool-cases (x == y)) [
  | inl e ↦
      let (back, k) = is_prefix-back p s (rw e at h) in
      (back, ap₂ (λ a t. a ∷ t) (sym (==→eq x y e)) k)
  | inr e ↦ absurd (let q = rw e at h in cc)
]

strstr_front : (word s : Bytes) → is_prefix word s ≡ true → strstr s word ≡ true
strstr_front word [] h = h
strstr_front word (x ∷ s) h = rw h refl

-- `strstr` finds a word just when the text contains it.
pub strstr_iff : (s word : Bytes) → (strstr s word ≡ true) ↔ Contains s word
strstr_iff s word = (from s, λ c. subst_to s c)
  where
    from : (s : Bytes) → strstr s word ≡ true → Contains s word
    from [] h = let (back, k) = is_prefix-back word [] h in ([], back, k)
    from (x ∷ s) h = elim (Bool-cases (is_prefix word (x ∷ s))) [
      | inl e ↦ let (back, k) = is_prefix-back word (x ∷ s) e in ([], back, k)
      | inr e ↦ let (front, back, k) = from s (rw e at h) in (x ∷ front, back, ap (λ t. x ∷ t) k)
    ]

    to : (front back : Bytes) → strstr (front ++ (word ++ back)) word ≡ true
    to [] back = strstr_front word (word ++ back) (is_prefix-append word back)
    to (x ∷ front) back = elim (Bool-cases (is_prefix word (x ∷ (front ++ (word ++ back))))) [
      | inl e ↦ rw e refl
      | inr e ↦ rw e (to front back)
    ]

    subst_to : (s : Bytes) → Contains s word → strstr s word ≡ true
    subst_to s (front, back, k) = ap (λ t. strstr t word) k ∙ to front back

-- What is printed of some lines: those that contain the word, in their order, and no other.
pub data Selected (word : Bytes) : List Bytes → Bytes → Type 0 where
  done : Selected word [] []
  prints :
      {l : Bytes} {ls : List Bytes} {printed : Bytes}
      → Contains l word
      → Selected word ls printed
      → Selected word (l ∷ ls) (l ++ printed)
  skips :
      {l : Bytes} {ls : List Bytes} {printed : Bytes}
      → ¬ Contains l word
      → Selected word ls printed
      → Selected word (l ∷ ls) printed

matching-Selected : (word : Bytes) (ls : List Bytes) → Selected word ls (matching word ls)
unfolding matching
matching-Selected word [] = Selected.done
matching-Selected word (l ∷ ls) = elim (Bool-cases (strstr l word)) [
  | inl e ↦ rw e (Selected.prints ((strstr_iff l word).0 e) (matching-Selected word ls))
  | inr e ↦
      rw e (Selected.skips (λ c. let t = (strstr_iff l word).1 c in cc) (matching-Selected word ls))
]

-- On a file that can be opened, `wgrep` ends, does not fail, reads all of the file as lines, and prints
-- just those lines that contain the word, in their order.
pub wgrep-Selected :
    (f word : Bytes)
    → (ls : List Bytes) × (printed : Bytes) × (read_all (suc (length f)) (suc (length f)) f
        ≡ some ls)
      × (concat ls ≡ f)
      × (wgrep (some f) word ≡ some (record { printed = printed; failed = false }))
      × Selected word ls printed
unfolding wgrep
wgrep-Selected f word =
    let (ls, e, k) = read_all-concat (suc (length f)) (length f) f (omega arith) in
    (ls, matching word ls, e, k, rw (e, wgrep) refl, matching-Selected word ls)
