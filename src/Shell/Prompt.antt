-- ===== src/Shell/Prompt.antt =====
-- `get_near_fold` of processes-shell/wish3.c: what the prompt shows.
use ostep_projects_finish.Common.{
  ℕ, zero, suc, ◌+◌, ◌≡◌, ◌≢◌, refl, sym, ap, ap₂, ◌∙◌, [], ◌∷◌, ◌++◌, length, drop, get_or, All,
  arith, ◌==◌, ne→==, if◌then◌else◌, append-nil,
}
use ostep_projects_finish.Common.Sift.{rev_onto, get_or-rev_onto, length-rev, rev_onto-rev_onto}
use ostep_projects_finish.Common.Text.{Bytes}
use ostep_projects_finish.Shell.{scan_back, get_near_fold}

abbrev pub HasNoSlash : Bytes → Type 0
HasNoSlash s = All (λ c. c ≢ 47) s

drop-append : (s t : Bytes) → drop (length s) (s ++ t) ≡ t
drop-append [] t = refl
drop-append (y ∷ s) t = drop-append s t

-- The loop over the bytes that are left, the last first.
unfoldable scan_rev : Bytes → ℕ → ℕ
scan_rev [] left = 0
scan_rev (r ∷ rs) zero = suc (length rs)
scan_rev (r ∷ rs) (suc left) = scan_rev rs (if r == 47 then left else suc left)

scan_back-rev_onto :
    (rs ys : Bytes) (left : ℕ) → scan_back (rev_onto rs ys) (length rs) left ≡ scan_rev rs left
unfolding scan_back scan_rev
scan_back-rev_onto [] ys left = refl
scan_back-rev_onto (r ∷ rs) ys zero = refl
scan_back-rev_onto (r ∷ rs) ys (suc left) =
    ap (λ c. scan_back (rev_onto rs (r ∷ ys)) (length rs) (if c == 47 then left else suc left))
      (ap (λ n. get_or (rev_onto rs (r ∷ ys)) n 0)
          (let e : length rs ≡ length rs + 0 = omega arith in e)
        ∙ get_or-rev_onto rs (r ∷ ys) 0 0)
    ∙ scan_back-rev_onto rs (r ∷ ys) (if r == 47 then left else suc left)

-- Back over bytes that are not slashes.
scan_rev-skip :
    (l rs : Bytes) (left : ℕ)
    → HasNoSlash l
    → scan_rev (rev_onto l rs) (suc left) ≡ scan_rev rs (suc left)
unfolding scan_rev
scan_rev-skip [] rs left h = refl
scan_rev-skip (x ∷ l) rs left h =
    scan_rev-skip l (x ∷ rs) left h.1 ∙ rw (ne→== x 47 h.0, scan_rev) refl

scan_rev-zero : (rs : Bytes) → scan_rev rs 0 ≡ length rs
unfolding scan_rev
scan_rev-zero [] = refl
scan_rev-zero (r ∷ rs) = refl

rev_onto-slash : (l j rs : Bytes) → rev_onto (l ++ (47 ∷ j)) rs ≡ rev_onto j (47 ∷ rev_onto l rs)
rev_onto-slash [] j rs = refl
rev_onto-slash (x ∷ l) j rs = rev_onto-slash l j (x ∷ rs)

scan_rev-two :
    (pre a tail : Bytes)
    → HasNoSlash a
    → HasNoSlash tail
    → scan_rev (rev_onto (pre ++ (47 ∷ (a ++ (47 ∷ tail)))) []) 2 ≡ length pre
unfolding scan_rev
scan_rev-two pre a tail ha ht =
    ap (λ t. scan_rev t 2)
      (rev_onto-slash pre (a ++ (47 ∷ tail)) [] ∙ rev_onto-slash a tail (47 ∷ rev_onto pre []))
    ∙ scan_rev-skip tail (47 ∷ rev_onto a (47 ∷ rev_onto pre [])) 1 ht
    ∙ scan_rev-skip a (47 ∷ rev_onto pre []) 0 ha
    ∙ scan_rev-zero (rev_onto pre [])
    ∙ sym (length-rev pre)

-- When no byte of the buffer behind the last directory of the working directory is a slash, the prompt
-- shows its last two directories, each behind its slash.
pub get_near_fold-two :
    (pre a tail : Bytes)
    → HasNoSlash a
    → HasNoSlash tail
    → (let buf = pre ++ (47 ∷ (a ++ (47 ∷ tail))) in
        get_near_fold buf (length buf) 2 ≡ 47 ∷ (a ++ (47 ∷ tail)))
unfolding get_near_fold
get_near_fold-two pre a tail ha ht =
    let buf = pre ++ (47 ∷ (a ++ (47 ∷ tail))) in
    ap (λ k. drop k buf)
      (ap₂ (λ b n. scan_back b n 2)
          (let e : buf ≡ rev_onto (rev_onto buf []) [] =
              sym (rev_onto-rev_onto buf [] [] ∙ append-nil buf) in
            e)
          (length-rev buf)
        ∙ scan_back-rev_onto (rev_onto buf []) [] 2
        ∙ scan_rev-two pre a tail ha ht)
    ∙ drop-append pre (47 ∷ (a ++ (47 ∷ tail)))
