-- ===== src/Web/Sff/Order.antt =====
-- concurrency-webserver/src_multi/wserver.c: the buffer of "shortest file first" is in ascending order
-- of the files' sizes.
use ostep_projects_finish.Common.{
  ℕ, suc, ◌≤◌, ◌≡◌, refl, sym, ap, ap₂, ◌∙◌, Option, none, some, List, [], ◌∷◌, ◌++◌, map,
  append-nil, arith, length, length-map, All, ltb, ltb→lt, ltb→le, if◌then◌else◌, Bool-cases, inl,
  inr, get_or,
}
use mathlib.Core.Option.{some-injective}
use mathlib.Core.List.{Perm}
use mathlib.Core.List.Perm
use ostep_projects_finish.Common.Sift.{
  rev_onto, rev_onto-snoc, length-rev, rev_onto-perm, read_below, read_above, swap_down,
  swap_down-rev_onto,
}
use ostep_projects_finish.Web.Request.{RequestInfor}
use ostep_projects_finish.Web.Sff.{size_at, bubble, put_sff, get_sff, consume_sff}

abbrev pub size : RequestInfor → ℕ
size r = r.sbuf.st_size

abbrev pub pointers : List RequestInfor → List (Option RequestInfor)
pointers l = map some l

-- The pass of the loop over a list that is read from its end.
unfoldable bubble_rev : RequestInfor → List RequestInfor → List RequestInfor
bubble_rev x [] = x ∷ []
bubble_rev x (r ∷ rs) = if ltb (size x) (size r) then r ∷ bubble_rev x rs else x ∷ bubble_rev r rs

size_at-some :
    (l : List (Option RequestInfor)) (i : ℕ) (r : RequestInfor)
    → get_or l i none ≡ some r
    → size_at l i ≡ some (size r)
unfolding size_at
size_at-some l i r e = rw (e, size_at) refl

bubble-suc :
    (i : ℕ) (l : List (Option RequestInfor)) (a b : ℕ)
    → size_at l (suc i) ≡ some a
    → size_at l i ≡ some b
    → bubble (suc i) l ≡ bubble i (if ltb a b then swap_down none i l else l)
unfolding bubble
bubble-suc i l a b e f = rw (e, f, bubble) refl

bubble-rev_onto :
    (rs : List RequestInfor) (x : RequestInfor) (ys : List (Option RequestInfor))
    → bubble (length (pointers rs)) (rev_onto (pointers rs) (some x ∷ ys))
      ≡ some (rev_onto (pointers (bubble_rev x rs)) ys)
unfolding bubble bubble_rev
bubble-rev_onto [] x ys = refl
bubble-rev_onto (r ∷ rs) x ys =
    let ps = pointers rs in
    let l = rev_onto ps (some r ∷ some x ∷ ys) in
    bubble-suc (length ps) l (size x) (size r)
      (size_at-some l (suc (length ps)) x (read_above ps none (some r) (some x) ys))
      (size_at-some l (length ps) r (read_below ps none (some r) (some x) ys))
    ∙ (elim (Bool-cases (ltb (size x) (size r))) [
      | inl e ↦ rw e (
          ap (bubble (length ps)) (swap_down-rev_onto ps none (some r) (some x) ys)
          ∙ bubble-rev_onto rs x (some r ∷ ys))
      | inr e ↦ rw e (bubble-rev_onto rs r (some x ∷ ys))
    ])

pointers-rev_onto :
    (rs ys : List RequestInfor) → pointers (rev_onto rs ys) ≡ rev_onto (pointers rs) (pointers ys)
pointers-rev_onto [] ys = refl
pointers-rev_onto (r ∷ rs) ys = pointers-rev_onto rs (r ∷ ys)

pointers-snoc :
    (l : List RequestInfor) (x : RequestInfor)
    → pointers l ++ (some x ∷ []) ≡ rev_onto (pointers (rev_onto l [])) (some x ∷ [])
pointers-snoc l x =
    rev_onto-snoc (pointers l) (some x)
    ∙ ap (λ t. rev_onto t (some x ∷ [])) (sym (pointers-rev_onto l []))

put_sff-rev :
    (l : List RequestInfor) (x : RequestInfor)
    → put_sff (some x) (pointers l) ≡ some (pointers (rev_onto (bubble_rev x (rev_onto l [])) []))
unfolding put_sff
put_sff-rev l x =
    ap₂ bubble (length-map some l ∙ length-rev l ∙ sym (length-map some (rev_onto l [])))
      (pointers-snoc l x)
    ∙ bubble-rev_onto (rev_onto l []) x []
    ∙ ap some (sym (pointers-rev_onto (bubble_rev x (rev_onto l [])) []))

-- In ascending order of the sizes.
abbrev pub IsSorted : List RequestInfor → Type 0
IsSorted [] = Unit
IsSorted (d ∷ ds) = All (λ e. size d ≤ size e) ds × IsSorted ds

-- The same of a list that is read from its end.
abbrev IsSortedRev : List RequestInfor → Type 0
IsSortedRev [] = Unit
IsSortedRev (r ∷ rs) = All (λ e. size e ≤ size r) rs × IsSortedRev rs

All-le :
    (x r : RequestInfor) (rs : List RequestInfor)
    → size r ≤ size x
    → All (λ e. size e ≤ size r) rs
    → All (λ e. size e ≤ size x) rs
All-le x r [] h a = tt
All-le x r (e ∷ rs) h a = (omega (arith, a.0), All-le x r rs h a.1)

All-bubble_rev :
    (b : ℕ) (x : RequestInfor) (rs : List RequestInfor)
    → size x ≤ b
    → All (λ e. size e ≤ b) rs
    → All (λ e. size e ≤ b) (bubble_rev x rs)
unfolding bubble_rev
All-bubble_rev b x [] h a = (h, tt)
All-bubble_rev b x (r ∷ rs) h a = elim (Bool-cases (ltb (size x) (size r))) [
  | inl q ↦ rw q (a.0, All-bubble_rev b x rs h a.1)
  | inr q ↦ rw q (h, All-bubble_rev b r rs a.0 a.1)
]

bubble_rev-IsSortedRev :
    (x : RequestInfor) (rs : List RequestInfor) → IsSortedRev rs → IsSortedRev (bubble_rev x rs)
unfolding bubble_rev
bubble_rev-IsSortedRev x [] s = (tt, tt)
bubble_rev-IsSortedRev x (r ∷ rs) s = elim (Bool-cases (ltb (size x) (size r))) [
  | inl q ↦
      let lt = ltb→lt (size x) (size r) q in
      rw q (All-bubble_rev (size r) x rs (omega arith) s.0, bubble_rev-IsSortedRev x rs s.1)
  | inr q ↦
      let le = ltb→le (size x) (size r) q in
      rw q (All-bubble_rev (size x) r rs le (All-le x r rs le s.0), bubble_rev-IsSortedRev r rs s.1)
]

-- Every one of `rs` is at most every one of `ys`.
abbrev AllBelow : List RequestInfor → List RequestInfor → Type 0
AllBelow rs ys = All (λ r. All (λ e. size r ≤ size e) ys) rs

AllBelow-cons :
    (r : RequestInfor) (rs ys : List RequestInfor)
    → All (λ e. size e ≤ size r) rs
    → AllBelow rs ys
    → AllBelow rs (r ∷ ys)
AllBelow-cons r [] ys a b = tt
AllBelow-cons r (e ∷ rs) ys a b = ((a.0, b.0), AllBelow-cons r rs ys a.1 b.1)

rev_onto-IsSorted :
    (rs ys : List RequestInfor)
    → IsSortedRev rs
    → IsSorted ys
    → AllBelow rs ys
    → IsSorted (rev_onto rs ys)
rev_onto-IsSorted [] ys a b c = b
rev_onto-IsSorted (r ∷ rs) ys a b c =
    rev_onto-IsSorted rs (r ∷ ys) a.1 (c.0, b) (AllBelow-cons r rs ys a.0 c.1)

AllBelow-nil : (rs : List RequestInfor) → AllBelow rs []
AllBelow-nil [] = tt
AllBelow-nil (r ∷ rs) = (tt, AllBelow-nil rs)

-- Every one of `rs` is at most every one of `ds`.
abbrev AllAbove : List RequestInfor → List RequestInfor → Type 0
AllAbove ds rs = All (λ d. All (λ e. size e ≤ size d) rs) ds

AllAbove-cons :
    (d : RequestInfor) (ds rs : List RequestInfor)
    → All (λ e. size d ≤ size e) ds
    → AllAbove ds rs
    → AllAbove ds (d ∷ rs)
AllAbove-cons d [] rs a b = tt
AllAbove-cons d (e ∷ ds) rs a b = ((a.0, b.0), AllAbove-cons d ds rs a.1 b.1)

AllAbove-nil : (ds : List RequestInfor) → AllAbove ds []
AllAbove-nil [] = tt
AllAbove-nil (d ∷ ds) = (tt, AllAbove-nil ds)

rev_onto-IsSortedRev :
    (ds rs : List RequestInfor)
    → IsSorted ds
    → IsSortedRev rs
    → AllAbove ds rs
    → IsSortedRev (rev_onto ds rs)
rev_onto-IsSortedRev [] rs a b c = b
rev_onto-IsSortedRev (d ∷ ds) rs a b c =
    rev_onto-IsSortedRev ds (d ∷ rs) a.1 (c.0, b) (AllAbove-cons d ds rs a.0 c.1)

bubble_rev-perm : (x : RequestInfor) (rs : List RequestInfor) → Perm (bubble_rev x rs) (x ∷ rs)
unfolding bubble_rev
bubble_rev-perm x [] = Perm.refl (x ∷ [])
bubble_rev-perm x (r ∷ rs) = elim (Bool-cases (ltb (size x) (size r))) [
  | inl q ↦ rw q (Perm.trans (Perm.cons r (bubble_rev-perm x rs)) (Perm.swap x r rs))
  | inr q ↦ rw q (Perm.cons x (bubble_rev-perm r rs))
]

-- When no entry is NULL and the buffer is in ascending order of the sizes, `put_sff` does not crash;
-- it leaves the entries and the new one, each as often as before, in ascending order again.
pub put_sff-IsSorted :
    (l : List RequestInfor) (x : RequestInfor)
    → IsSorted l
    → (l' : List RequestInfor) × (put_sff (some x) (pointers l) ≡ some (pointers l'))
      × IsSorted l'
      × Perm l' (x ∷ l)
put_sff-IsSorted l x s =
    let rs = rev_onto l [] in
    (
      rev_onto (bubble_rev x rs) [],
      put_sff-rev l x,
      rev_onto-IsSorted (bubble_rev x rs) []
          (bubble_rev-IsSortedRev x rs (rev_onto-IsSortedRev l [] s tt (AllAbove-nil l))) tt
          (AllBelow-nil (bubble_rev x rs)),
      Perm.trans (rw append-nil at (rev_onto-perm (bubble_rev x rs) []))
          (Perm.trans (bubble_rev-perm x rs) (Perm.cons x (rw append-nil at (rev_onto-perm l [])))),
    )

length-bubble_rev :
    (x : RequestInfor) (rs : List RequestInfor) → length (bubble_rev x rs) ≡ suc (length rs)
unfolding bubble_rev
length-bubble_rev x [] = refl
length-bubble_rev x (r ∷ rs) = elim (Bool-cases (ltb (size x) (size r))) [
  | inl q ↦ rw q (ap suc (length-bubble_rev x rs))
  | inr q ↦ rw q (ap suc (length-bubble_rev r rs))
]

-- `put_sff` adds one entry.
pub length-put_sff :
    (l : List RequestInfor) (x : RequestInfor) (l' : List (Option RequestInfor))
    → put_sff (some x) (pointers l) ≡ some l'
    → length l' ≡ suc (length l)
length-put_sff l x l' e =
    let rs = rev_onto l [] in
    let bubbled = bubble_rev x rs in
    ap length (some-injective _ _ (sym e ∙ put_sff-rev l x))
    ∙ length-map some (rev_onto bubbled [])
    ∙ sym (length-rev bubbled)
    ∙ length-bubble_rev x rs
    ∙ ap suc (sym (length-rev l))

get_or-snoc :
    (l : List (Option RequestInfor)) (x : Option RequestInfor)
    → get_or (l ++ (x ∷ [])) (length l) none ≡ x
get_or-snoc [] x = refl
get_or-snoc (y ∷ l) x = get_or-snoc l x

put_null_behind :
    (l : List (Option RequestInfor)) (y : Option RequestInfor) → put_sff none (y ∷ l) ≡ none
unfolding put_sff bubble size_at
put_null_behind l y = rw (get_or-snoc l none, bubble, size_at) refl

put_behind_null : (x : Option RequestInfor) → put_sff x (none ∷ []) ≡ none
unfolding put_sff bubble size_at
put_behind_null none = refl
put_behind_null (some r) = refl

-- A NULL that is put behind any request crashes the server, and so does any request put behind it, or a
-- worker that takes it.
pub put_sff-null :
    (l : List (Option RequestInfor)) (x y : Option RequestInfor)
    → (put_sff none (y ∷ l) ≡ none)
      × (put_sff x (none ∷ []) ≡ none)
      × (consume_sff (none ∷ l) ≡ none)
unfolding consume_sff get_sff
put_sff-null l x y = (put_null_behind l y, put_behind_null x, refl)
