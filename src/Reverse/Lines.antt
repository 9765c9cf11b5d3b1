-- ===== src/Reverse/Lines.antt =====
-- initial-reverse/reverse.c: the output is the lines of the input in reverse order.
use ostep_projects_finish.Common.{
  ℕ, suc, ◌+◌, ◌-◌, ◌≡◌, ◌≢◌, refl, sym, ap, ap₂, ◌∙◌, false, List, [], ◌∷◌, ◌++◌, append-nil,
  append_assoc, length, length-append, get_or, All, arith, ◌==◌, ne→==, if◌then◌else◌, Bool-cases,
  inl, inr, ==→eq,
}
use ostep_projects_finish.Common.Sift.{rev_onto, get_or-rev_onto, length-rev, rev_onto-rev_onto}
use ostep_projects_finish.Common.Text.{Bytes, last_or}
use ostep_projects_finish.Reverse.{print_chars, print_lines, reverse}

read_seam : (rs ys : Bytes) → get_or (rev_onto rs ys) (length rs) 0 ≡ get_or ys 0 0
read_seam rs ys =
    ap (λ n. get_or (rev_onto rs ys) n 0) (let e : length rs ≡ length rs + 0 = omega arith in e)
    ∙ get_or-rev_onto rs ys 0 0

print_chars-rev_onto :
    (rs cur tail : Bytes) → print_chars (rev_onto rs (cur ++ tail)) (length rs) (length cur) ≡ cur
print_chars-rev_onto rs [] tail = refl
print_chars-rev_onto rs (x ∷ cur) tail = ap₂ ◌∷◌ (read_seam rs (x ∷ cur ++ tail)) (
    ap (λ i. print_chars (rev_onto rs (x ∷ cur ++ tail)) i (length cur))
      (let e : length rs + 1 ≡ suc (length rs) = omega arith in e)
    ∙ print_chars-rev_onto (x ∷ rs) cur tail)

-- The output, from the bytes that are left, the last first, and those of the line so far.
unfoldable walk : Bytes → Bytes → Bytes
walk [] cur = cur
walk (c ∷ rs) cur = if c == 10 then cur ++ (10 ∷ walk rs []) else walk rs (c ∷ cur)

-- The loop prints nothing if it has no round.
unfoldable walk_some : Bytes → Bytes → Bytes
walk_some [] cur = []
walk_some (c ∷ rs) cur = walk (c ∷ rs) cur

newline_round :
    (str : Bytes) (i n : ℕ)
    → get_or str i 0 ≡ 10
    → print_lines str (suc i) n ≡ (print_chars str (i + 1) n ++ (10 ∷ [])) ++ print_lines str i 0
unfolding print_lines
newline_round str i n e = elim (Bool-cases (i == 0)) [
  | inl z ↦
      rw (e, z, append-nil)
        (ap (λ k. (print_chars str (i + 1) k ++ (10 ∷ [])) ++ print_lines str i 0) less)
  | inr z ↦
      rw (e, z, append-nil)
        (ap (λ k. (print_chars str (i + 1) k ++ (10 ∷ [])) ++ print_lines str i 0) less)
]
  where
    less : n + 1 - 1 ≡ n
    less = omega arith

last_round :
    (str : Bytes) (n : ℕ)
    → (get_or str 0 0 == 10) ≡ false
    → print_lines str 1 n ≡ print_chars str 0 (suc n)
unfolding print_lines
last_round str n e =
    rw (e, append-nil) (ap (λ k. print_chars str 0 k) (let p : n + 1 ≡ suc n = omega arith in p))

other_round :
    (str : Bytes) (i n : ℕ)
    → (get_or str (suc i) 0 == 10) ≡ false
    → print_lines str (suc (suc i)) n ≡ print_lines str (suc i) (suc n)
unfolding print_lines
other_round str i n e =
    rw (e, ne→== (suc i) 0 (omega arith))
      (ap (λ k. print_lines str (suc i) k) (let p : n + 1 ≡ suc n = omega arith in p))

walk_some-nil : (rs : Bytes) → walk_some rs [] ≡ walk rs []
unfolding walk_some walk
walk_some-nil [] = refl
walk_some-nil (c ∷ rs) = refl

at_newline :
    (rs cur tail : Bytes)
    → print_lines (rev_onto rs (10 ∷ (cur ++ tail))) (length rs) 0 ≡ walk_some rs []
    → print_lines (rev_onto rs (10 ∷ (cur ++ tail))) (suc (length rs)) (length cur)
      ≡ cur ++ (10 ∷ walk rs [])
at_newline rs cur tail ih =
    let str = rev_onto rs (10 ∷ (cur ++ tail)) in
    newline_round str (length rs) (length cur) (read_seam rs (10 ∷ (cur ++ tail)))
    ∙ ap₂ (λ a b. (a ++ (10 ∷ [])) ++ b)
        (ap (λ i. print_chars str i (length cur))
            (let p : length rs + 1 ≡ suc (length rs) = omega arith in p)
          ∙ print_chars-rev_onto (10 ∷ rs) cur tail)
        (ih ∙ walk_some-nil rs)
    ∙ append_assoc cur (10 ∷ []) (walk rs [])

at_other :
    (c : ℕ) (rs cur tail : Bytes)
    → (c == 10) ≡ false
    → print_lines (rev_onto rs (c ∷ (cur ++ tail))) (length rs) (suc (length cur))
      ≡ walk_some rs (c ∷ cur)
    → print_lines (rev_onto rs (c ∷ (cur ++ tail))) (suc (length rs)) (length cur)
      ≡ walk rs (c ∷ cur)
unfolding walk walk_some
at_other c [] cur tail h ih =
    last_round (c ∷ (cur ++ tail)) (length cur) h ∙ print_chars-rev_onto [] (c ∷ cur) tail
at_other c (r ∷ rs) cur tail h ih =
    other_round (rev_onto (r ∷ rs) (c ∷ (cur ++ tail))) (length rs) (length cur)
      (ap (λ k. k == 10) (read_seam (r ∷ rs) (c ∷ (cur ++ tail))) ∙ h)
    ∙ ih

print_lines-walk :
    (rs cur tail : Bytes)
    → print_lines (rev_onto rs (cur ++ tail)) (length rs) (length cur) ≡ walk_some rs cur
unfolding walk walk_some
print_lines-walk [] cur tail = unfold print_lines in refl
print_lines-walk (c ∷ rs) cur tail = elim (Bool-cases (c == 10)) [
  | inl e ↦
      rw (e, ==→eq c 10 e)
        (at_newline rs cur tail (
          ap (λ d. print_lines (rev_onto rs (d ∷ (cur ++ tail))) (length rs) 0) (sym (==→eq c 10 e))
          ∙ print_lines-walk rs [] (c ∷ (cur ++ tail))))
  | inr e ↦ rw e (at_other c rs cur tail e (print_lines-walk rs (c ∷ cur) tail))
]

abbrev pub HasNoNewline : Bytes → Type 0
HasNoNewline l = All (λ c. c ≢ 10) l

walk-line : (l rs cur : Bytes) → HasNoNewline l → walk (rev_onto l rs) cur ≡ walk rs (l ++ cur)
unfolding walk
walk-line [] rs cur h = refl
walk-line (x ∷ l) rs cur h = walk-line l (x ∷ rs) cur h.1 ∙ rw (ne→== x 10 h.0, walk) refl

rev_onto-append_cons :
    (l j rs : Bytes) → rev_onto (l ++ (10 ∷ j)) rs ≡ rev_onto j (10 ∷ rev_onto l rs)
rev_onto-append_cons [] j rs = refl
rev_onto-append_cons (x ∷ l) j rs = rev_onto-append_cons l j (x ∷ rs)

-- The lines with a newline between any two.
abbrev pub join : List Bytes → Bytes
join [] = []
join (l ∷ []) = l
join (l ∷ m ∷ ls) = l ++ (10 ∷ join (m ∷ ls))

-- The lines in reverse order, each with a newline, in front of a text.
abbrev lines_onto : List Bytes → Bytes → Bytes
lines_onto [] rest = rest
lines_onto (l ∷ ls) rest = lines_onto ls (l ++ (10 ∷ rest))

lines_onto-join :
    (ls : List Bytes) (l : Bytes) (ks : List Bytes)
    → lines_onto ls (join (l ∷ ks)) ≡ join (rev_onto ls (l ∷ ks))
lines_onto-join [] l ks = refl
lines_onto-join (m ∷ ls) l ks = lines_onto-join ls m (l ∷ ks)

walk-join :
    (m : Bytes) (ls : List Bytes) (rs : Bytes)
    → All HasNoNewline (m ∷ ls)
    → walk (rev_onto (join (m ∷ ls)) (10 ∷ rs)) [] ≡ lines_onto (m ∷ ls) (walk rs [])
unfolding walk
walk-join m [] rs h = walk-line m (10 ∷ rs) [] h.0 ∙ ap (λ t. t ++ (10 ∷ walk rs [])) (append-nil m)
walk-join m (k ∷ ls) rs h =
    ap (λ t. walk t []) (rev_onto-append_cons m (join (k ∷ ls)) (10 ∷ rs))
    ∙ walk-join k ls (rev_onto m (10 ∷ rs)) h.1
    ∙ ap (λ t. lines_onto ls (k ++ (10 ∷ t)))
        (walk-line m (10 ∷ rs) [] h.0 ∙ ap (λ t. t ++ (10 ∷ walk rs [])) (append-nil m))

walk_nil : (l : Bytes) → walk [] (l ++ []) ≡ l
unfolding walk
walk_nil l = append-nil l

walk-lines :
    (l : Bytes) (ls : List Bytes)
    → All HasNoNewline (l ∷ ls)
    → walk (rev_onto (join (l ∷ ls)) []) [] ≡ join (rev_onto (l ∷ ls) [])
walk-lines l [] h = walk-line l [] [] h.0 ∙ walk_nil l
walk-lines l (m ∷ ls) h =
    ap (λ t. walk t []) (rev_onto-append_cons l (join (m ∷ ls)) [])
    ∙ walk-join m ls (rev_onto l []) h.1
    ∙ ap (λ t. lines_onto (m ∷ ls) t) (walk-line l [] [] h.0 ∙ walk_nil l)
    ∙ lines_onto-join (m ∷ ls) l []

print_lines-join :
    (l : Bytes) (ls : List Bytes) (tail : Bytes)
    → All HasNoNewline (l ∷ ls)
    → print_lines (join (l ∷ ls) ++ tail) (length (join (l ∷ ls))) 0 ≡ join (rev_onto (l ∷ ls) [])
print_lines-join l ls tail h =
    let s = join (l ∷ ls) in
    ap₂ (λ t n. print_lines t n 0) (sym (rev_onto-rev_onto s [] tail)) (length-rev s)
    ∙ print_lines-walk (rev_onto s []) [] tail
    ∙ walk_some-nil (rev_onto s [])
    ∙ walk-lines l ls h

last_or-snoc : (s : Bytes) (x d : ℕ) → last_or (s ++ (x ∷ [])) d ≡ x
last_or-snoc [] x d = refl
last_or-snoc (y ∷ s) x d = last_or-snoc s x y

-- On a text whose last byte is not a newline, `reverse` prints its lines in reverse order, with a
-- newline between any two.
pub reverse-join :
    (before : ℕ) (l : Bytes) (ls : List Bytes)
    → All HasNoNewline (l ∷ ls)
    → (last_or (join (l ∷ ls)) before == 10) ≡ false
    → reverse before (join (l ∷ ls)) ≡ join (rev_onto (l ∷ ls) [])
unfolding reverse
reverse-join before l ls h e = rw e (
    ap (λ t. print_lines t (length (join (l ∷ ls))) 0) (sym (append-nil (join (l ∷ ls))))
    ∙ print_lines-join l ls [] h)

-- On a text that ends with a newline, `reverse` prints its lines in reverse order, each with a newline.
pub reverse-join_newline :
    (before : ℕ) (l : Bytes) (ls : List Bytes)
    → All HasNoNewline (l ∷ ls)
    → reverse before (join (l ∷ ls) ++ (10 ∷ [])) ≡ join (rev_onto (l ∷ ls) []) ++ (10 ∷ [])
unfolding reverse
reverse-join_newline before l ls h = rw (last_or-snoc (join (l ∷ ls)) 10 before) (
    ap (λ t. t ++ (10 ∷ []))
      (ap (λ n. print_lines (join (l ∷ ls) ++ (10 ∷ [])) n 0)
          (let p : length (join (l ∷ ls) ++ (10 ∷ [])) - 1 ≡ length (join (l ∷ ls)) =
              omega (arith, length-append (join (l ∷ ls)) (10 ∷ [])) in
            p)
        ∙ print_lines-join l ls (10 ∷ []) h))

-- On lines that end with a newline each, `reverse` prints them in reverse order, with a newline each.
pub reverse-newline :
    (before : ℕ) (l : Bytes) (ls : List Bytes)
    → All HasNoNewline (l ∷ ls)
    → reverse before (join (l ∷ ls) ++ (10 ∷ [])) ≡ join (rev_onto (l ∷ ls) []) ++ (10 ∷ [])
unfolding reverse
reverse-newline before l ls h =
    let s = join (l ∷ ls) in
    rw (last_or-snoc s 10 before) (
      ap (λ n. print_lines (s ++ (10 ∷ [])) n 0 ++ (10 ∷ []))
        (let e : length (s ++ (10 ∷ [])) - 1 ≡ length s =
            omega (arith, length-append s (10 ∷ [])) in
          e)
      ∙ ap (λ t. t ++ (10 ∷ [])) (print_lines-join l ls (10 ∷ []) h))
