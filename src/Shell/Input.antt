-- ===== src/Shell/Input.antt =====
-- `input_fix` of processes-shell/wish3.c.
use ostep_projects_finish.Common.{
  ℕ, suc, ◌-◌, ◌≡◌, ◌≢◌, refl, ap, ◌∙◌, Bool, true, false, ◌&&◌, none, some, [], ◌∷◌, ◌++◌, length,
  length-append, take, ◌<◌, ==→eq, ==→ne, leb, ◌==◌, if◌then◌else◌, Bool-cases, inl, inr, arith,
}
use ostep_projects_finish.Common.Text.{Bytes, last_or}
use ostep_projects_finish.Shell.{squeeze, second_last, input_fix}

-- The bytes that are not spaces.
abbrev pub letters : Bytes → Bytes
letters [] = []
letters (c ∷ s) = let rest = letters s in if c == 32 then rest else c ∷ rest

-- No space follows a space; one may come first only if something comes in front (`his`).
abbrev pub is_tidy : Bool → Bytes → Bool
is_tidy his [] = true
is_tidy his (c ∷ s) = if c == 32 then his && is_tidy false s else is_tidy true s

letters-squeeze : (his : Bool) (s : Bytes) → letters (squeeze his s) ≡ letters s
unfolding squeeze
letters-squeeze his [] = refl
letters-squeeze his (c ∷ s) = ground (arith, letters-squeeze true s, letters-squeeze false s)

squeeze-is_tidy : (his : Bool) (s : Bytes) → is_tidy his (squeeze his s) ≡ true
unfolding squeeze
squeeze-is_tidy his [] = refl
squeeze-is_tidy his (c ∷ s) = ground (arith, squeeze-is_tidy true s, squeeze-is_tidy false s)

squeeze-newline :
    (his : Bool) (s : Bytes) → squeeze his (s ++ (10 ∷ [])) ≡ squeeze his s ++ (10 ∷ [])
unfolding squeeze
squeeze-newline true [] = refl
squeeze-newline false [] = refl
squeeze-newline his (c ∷ s) = ground (arith, squeeze-newline true s, squeeze-newline false s)

-- Without its last byte.
abbrev init : Bytes → Bytes
init [] = []
init (x ∷ []) = []
init (x ∷ y ∷ s) = x ∷ init (y ∷ s)

second_last-snoc : (q : Bytes) (d x : ℕ) → second_last d (q ++ (x ∷ [])) ≡ last_or q d
second_last-snoc [] d x = refl
second_last-snoc (a ∷ []) d x = refl
second_last-snoc (a ∷ b ∷ []) d x = refl
second_last-snoc (a ∷ b ∷ c ∷ q) d x = second_last-snoc (b ∷ c ∷ q) d x

take-init :
    (a : ℕ) (q : Bytes) (x : ℕ)
    → take (length ((a ∷ q) ++ (x ∷ [])) - 2) ((a ∷ q) ++ (x ∷ [])) ≡ init (a ∷ q)
take-init a [] x = refl
take-init a (b ∷ q) x =
    let long = length-append q (x ∷ []) in
    ap (λ n. take n (a ∷ ((b ∷ q) ++ (x ∷ []))))
      (let e : suc (suc (length (q ++ (x ∷ [])))) - 2 ≡ suc (suc (length (q ++ (x ∷ []))) - 2) =
          omega (arith, long) in
        e)
    ∙ ap (λ t. a ∷ t) (take-init b q x)

long : (f : Bytes) → leb 2 (suc (length (f ++ (10 ∷ [])))) ≡ true
long f = let h = length-append f (10 ∷ []) in ground (arith, h)

letters-init : (a : ℕ) (q : Bytes) → last_or q a ≡ 32 → letters (init (a ∷ q)) ≡ letters (a ∷ q)
letters-init a [] e = rw e refl
letters-init a (b ∷ q) e = elim (Bool-cases (a == 32)) [
  | inl z ↦ rw z (letters-init b q e)
  | inr z ↦ rw z (ap (λ t. a ∷ t) (letters-init b q e))
]

is_tidy-init :
    (his : Bool) (a : ℕ) (q : Bytes)
    → is_tidy his (a ∷ q) ≡ true
    → is_tidy his (init (a ∷ q)) ≡ true
is_tidy-init his a [] e = refl
is_tidy-init his a (b ∷ q) e = ground (arith, is_tidy-init true b q, is_tidy-init false b q)

last_or-init :
    (his : Bool) (a : ℕ) (q : Bytes)
    → is_tidy his (a ∷ q) ≡ true
    → last_or q a ≡ 32
    → last_or (init (a ∷ q)) 0 ≢ 32
last_or-init his a [] t e = omega arith
last_or-init his a (b ∷ []) t e = ground arith
last_or-init his a (b ∷ c ∷ q) t e =
    ground (arith, last_or-init true b (c ∷ q), last_or-init false b (c ∷ q))

-- A line that ends with the newline `10` and has another byte than spaces in front of it: `input_fix`
-- keeps these bytes in their order, and the spaces that it keeps are single, none at the start and
-- none at the end of the line; it ends with the newline again.
pub input_fix-is_tidy :
    (before : ℕ) (s : Bytes)
    → 0 < length (letters s)
    → (q : Bytes) × (input_fix before (s ++ (10 ∷ [])) ≡ some (q ++ (10 ∷ [])))
      × (letters q ≡ letters s)
      × (is_tidy false q ≡ true)
      × (last_or q 0 ≢ 32)
unfolding input_fix
input_fix-is_tidy before s h =
    go (squeeze false s) (squeeze-newline false s) (letters-squeeze false s)
      (squeeze-is_tidy false s)
  where
    go :
        (f : Bytes)
        → squeeze false (s ++ (10 ∷ [])) ≡ f ++ (10 ∷ [])
        → letters f ≡ letters s
        → is_tidy false f ≡ true
        → (q : Bytes) × (input_fix before (s ++ (10 ∷ [])) ≡ some (q ++ (10 ∷ [])))
          × (letters q ≡ letters s)
          × (is_tidy false q ≡ true)
          × (last_or q 0 ≢ 32)
    go [] e l t = absurd (let z : 0 ≡ length (letters s) = ap length l in omega arith)
    go (a ∷ f) e l t = elim (Bool-cases (last_or f a == 32)) [
      | inl z ↦
          let w = ==→eq (last_or f a) 32 z in
          let l2 = (a ∷ f) ++ (10 ∷ []) in
          (
            init (a ∷ f),
            rw (e, second_last-snoc (a ∷ f) before 10, z)
                (ap (λ b. if b then some (take (length l2 - 2) l2 ++ (10 ∷ [])) else none) (long f)
                  ∙ ap (λ t. some (t ++ (10 ∷ []))) (take-init a f 10)),
            letters-init a f w ∙ l,
            is_tidy-init false a f t,
            last_or-init false a f t w,
          )
      | inr z ↦ (
        a ∷ f,
        rw (e, second_last-snoc (a ∷ f) before 10, z) refl,
        l,
        t,
        ==→ne (last_or f a) 32 z,
      )
    ]
