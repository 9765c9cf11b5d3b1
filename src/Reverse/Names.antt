-- ===== src/Reverse/Names.antt =====
-- `main` of initial-reverse/reverse.c with an input and an output.
use ostep_projects_finish.Common.{
  ℕ, zero, suc, ◌+◌, ◌-◌, ◌≤◌, ◌<◌, ◌≡◌, ◌≢◌, refl, ap, ◌∙◌, true, length, length-append, get_or,
  [], ◌∷◌, ◌++◌, sym, arith, ◌==◌, ==_refl, ne→==, eq→==, le→ltb, if◌then◌else◌,
}
use ostep_projects_finish.Common.Text.{Bytes}
use ostep_projects_finish.Reverse.{base_len, compare_names, main}

base_len_le : (name : Bytes) (i n : ℕ) → base_len name i n ≤ n + i
unfolding base_len
base_len_le name zero n = omega arith
base_len_le name (suc i) n = ground (arith, base_len_le name i (n + 1))

get_or-behind : (pre ys : Bytes) (i : ℕ) → get_or (pre ++ ys) (length pre + i) 0 ≡ get_or ys i 0
get_or-behind [] ys i = ap (λ k. get_or ys k 0) (let e : 0 + i ≡ i = omega arith in e)
get_or-behind (x ∷ pre) ys i =
    ap (λ k. get_or (x ∷ (pre ++ ys)) k 0)
      (let e : suc (length pre) + i ≡ suc (length pre + i) = omega arith in e)
    ∙ get_or-behind pre ys i

module _ (pre name : Bytes) where
  same_byte :
      (j count : ℕ)
      → count < length name
      → count + suc j ≡ length pre + length name
      → get_or name (length name - 1 - count) 0 ≡ get_or (pre ++ name) j 0
  same_byte j count below h =
      sym (get_or-behind pre name (length name - 1 - count))
      ∙ ap (λ k. get_or (pre ++ name) k 0)
          (let e : length pre + (length name - 1 - count) ≡ j = omega arith in e)

  same_step :
      (j count : ℕ)
      → count < length name
      → count + suc j ≡ length pre + length name
      → compare_names name (pre ++ name) (suc j) count 0 ≡ (
          if count + 1 == length name
          then record { reversed = 0; refused = true }
          else compare_names name (pre ++ name) j (count + 1) 0)
  unfolding compare_names
  same_step j count below h =
      rw (same_byte j count below h, ==_refl (get_or (pre ++ name) j 0)) refl

  -- `left` rounds match the rest of the input's name.
  same_names :
      (left j count : ℕ)
      → count + suc left ≡ length name
      → count + suc j ≡ length pre + length name
      → compare_names name (pre ++ name) (suc j) count 0 ≡ record { reversed = 0; refused = true }
  same_names zero j count full h =
      let e : count + 1 ≡ length name = omega arith in
      same_step j count (omega arith) h ∙ rw (eq→== (count + 1) (length name) e) refl
  same_names (suc left) zero count full h = absurd (omega arith)
  same_names (suc left) (suc j) count full h =
      let e : count + 1 ≢ length name = λ q. omega arith in
      same_step (suc j) count (omega arith) h
      ∙ rw (ne→== (count + 1) (length name) e)
          (same_names left j (count + 1) (omega arith) (omega arith))

-- With an output whose name ends with the whole name of the input, as for the same name and for a file of
-- this name in another directory, `reverse` is not called, so no file is truncated, and the program ends
-- with its message that the files must differ.
pub main-behind :
    (pre name : Bytes)
    → 0 < length name
    → main name (pre ++ name) ≡ record { reversed = 0; refused = true }
unfolding main
main-behind pre name h =
    let le = base_len_le name (length name) 0 in
    let n : length (pre ++ name) ≡ suc (length (pre ++ name) - 1) =
      omega (arith, length-append pre name) in
    rw
      (le→ltb (length (pre ++ name)) (base_len name (length name) 0)
        (omega (arith, length-append pre name)))
      (ap (λ k. compare_names name (pre ++ name) k 0 0) n
        ∙ same_names pre name (length name - 1) (length (pre ++ name) - 1) 0 (omega arith)
            (omega (arith, length-append pre name)))
