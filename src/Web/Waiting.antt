-- ===== src/Web/Waiting.antt =====
-- concurrency-webserver/src_multi/wserver.c, the FIFO schedule: how long a connection waits.
use ostep_projects_finish.Common.{
  ℕ, ◌+◌, ◌≤◌, ◌<◌, ◌≡◌, refl, sym, ap, ap₂, ◌∙◌, List, [], ◌∷◌, ◌++◌, append_assoc, append-nil,
  length, length-append, arith,
}
use mathlib.Core.List.{head-eq_of_cons-eq, tail-eq_of_cons-eq}
use ostep_projects_finish.Web.Buffer.{Server, get, Step, Reach, waiting, server_fifo}

-- Steps from one state on.
pub data Run (n : ℕ) (s : Server) : Server → Type 0 where
  stay : Run n s s
  onward : {t u : Server} → Run n s t → Step n t u → Run n s u

abbrev pub takes : {n : ℕ} {t u : Server} → Step n t u → ℕ
takes (Step.accept fd h) = 0
takes (Step.consume h) = 1

-- How many of the steps are a worker's.
abbrev pub gets : {n : ℕ} {s t : Server} → Run n s t → ℕ
gets stay = 0
gets (onward r d) = gets r + takes d

prefix :
    (a b c d : List ℕ) → a ++ b ≡ c ++ d → length c ≤ length a → (rest : List ℕ) × (a ≡ c ++ rest)
prefix a b [] d e h = (a, refl)
prefix [] b (x ∷ c) d e h = absurd (omega arith)
prefix (y ∷ a) b (x ∷ c) d e h =
    let r = prefix a b c d (tail-eq_of_cons-eq e) (omega arith) in
    (r.0, ap₂ ◌∷◌ (head-eq_of_cons-eq e) r.1)

module _ (n : ℕ) where
  Run-Reach : (s t : Server) → Reach n s → Run n s t → Reach n t
  Run-Reach s t q stay = q
  Run-Reach s t q (onward {t = t'} r d) = Reach.later (Run-Reach s t' q r) d

  Step-taken : (t u : Server) (d : Step n t u) → length u.taken ≡ length t.taken + takes d
  Step-taken t u (Step.accept fd h) = omega arith
  Step-taken t u (Step.consume h) = length-append t.taken ((get n t.buffer).0 ∷ [])

  Run-taken : (s t : Server) (r : Run n s t) → length t.taken ≡ length s.taken + gets r
  Run-taken s t stay = omega arith
  Run-taken s t (onward {t = t'} r d) = omega (arith, Run-taken s t' r, Step-taken t' t d)

  Step-accepted : (t u : Server) → Step n t u → (more : List ℕ) × (u.accepted ≡ t.accepted ++ more)
  Step-accepted t u (Step.accept fd h) = (fd ∷ [], refl)
  Step-accepted t u (Step.consume h) = ([], sym (append-nil t.accepted))

  Run-accepted : (s t : Server) → Run n s t → (more : List ℕ) × (t.accepted ≡ s.accepted ++ more)
  Run-accepted s t stay = ([], sym (append-nil s.accepted))
  Run-accepted s t (onward {t = t'} r d) =
      let before = Run-accepted s t' r in
      let last = Step-accepted t' t d in
      (
        before.0 ++ last.0,
        last.1 ∙ ap (λ l. l ++ last.0) before.1 ∙ append_assoc s.accepted before.0 last.0,
      )

  -- A connection in front of which `length pre` others wait in a reachable state of the FIFO server has
  -- been taken, right behind these, once workers have taken more than `length pre` connections,
  -- whatever the main thread accepts in between.
  pub waits_bounded :
      (s t : Server) (pre : List ℕ) (fd : ℕ) (post : List ℕ)
      → 0 < n
      → Reach n s
      → (r : Run n s t) → waiting n s.buffer ≡ pre ++ (fd ∷ post)
      → length pre < gets r
      → (rest : List ℕ) × (t.taken ≡ (s.taken ++ (pre ++ (fd ∷ []))) ++ rest)
  waits_bounded s t pre fd post pos q r w h =
      let now = server_fifo n s pos q in
      let after = server_fifo n t pos (Run-Reach s t q r) in
      let more = Run-accepted s t r in
      prefix t.taken (waiting n t.buffer) (s.taken ++ (pre ++ (fd ∷ []))) (post ++ more.0)
        (after.1
          ∙ more.1
          ∙ ap (λ l. l ++ more.0) (sym now.1 ∙ ap (λ l. s.taken ++ l) w)
          ∙ regroup s.taken pre fd post more.0)
        (omega (
          arith,
          Run-taken s t r,
          length-append s.taken (pre ++ (fd ∷ [])),
          length-append pre (fd ∷ []),
        ))
    where
      regroup :
          (a b : List ℕ) (x : ℕ) (c d : List ℕ)
          → (a ++ (b ++ (x ∷ c))) ++ d ≡ (a ++ (b ++ (x ∷ []))) ++ (c ++ d)
      regroup [] [] x c d = refl
      regroup [] (y ∷ b) x c d = ap (λ l. y ∷ l) (regroup [] b x c d)
      regroup (y ∷ a) b x c d = ap (λ l. y ∷ l) (regroup a b x c d)
