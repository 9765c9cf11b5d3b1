-- ===== src/Web/Sff/Schedule.antt =====
-- concurrency-webserver/src_multi/wserver.c: the schedule "shortest file first" as a step relation of the
-- main thread and any number of workers, whose steps come in any order. What a thread does with the
-- mutex held, from the end of its wait on, is one step. A server that crashes takes no step.
use ostep_projects_finish.Common.{
  ℕ, ◌+◌, ◌≤◌, ◌<◌, ◌≡◌, ◌≢◌, refl, sym, ap, ◌∙◌, subst, Option, none, some, List, [], ◌∷◌, ◌++◌,
  append_assoc, append-nil, append-nil, length, length-map, arith, ◌⊎◌, inl, inr,
}
use mathlib.Core.Option.{some-injective, none-ne-some}
use mathlib.Core.List.{Perm, perm_middle}
use mathlib.Core.List.Perm
use ostep_projects_finish.Web.Request.{RequestInfor}
use ostep_projects_finish.Web.Sff.{bubble, put_sff, get_sff, consume_sff}
use ostep_projects_finish.Web.Sff.Order.{
  pointers, IsSorted, put_sff-IsSorted, length-put_sff, put_sff-null,
}

-- The buffer, and for the record the requests that the main thread has put and those that workers have
-- got, each in order.
pub record Server : Type 0 where
  pub infor_buf : List (Option RequestInfor)
  pub accepted : List RequestInfor
  pub taken : List RequestInfor

abbrev pub start_server : Server
start_server = record { infor_buf = []; accepted = []; taken = [] }

-- A NULL is no request.
abbrev pub requests : Option RequestInfor → List RequestInfor
requests none = []
requests (some r) = r ∷ []

-- `infor` is what `file_size` returns.
pub data Step (buffer_num : ℕ) (s : Server) : Server → Type 0 where
  accept :
      (infor : Option RequestInfor) (infor_buf : List (Option RequestInfor))
      → length s.infor_buf + 1 ≢ buffer_num
      → put_sff infor s.infor_buf ≡ some infor_buf
      → Step buffer_num s (record {
        infor_buf = infor_buf;
        accepted = s.accepted ++ requests infor;
        taken = s.taken;
      })
  consume :
      (infor : RequestInfor) (infor_buf : List (Option RequestInfor))
      → consume_sff s.infor_buf ≡ some (infor, infor_buf)
      → Step buffer_num s
          (record { infor_buf = infor_buf; accepted = s.accepted; taken = s.taken ++ (infor ∷ []) })

pub data Reach (buffer_num : ℕ) : Server → Type 0 where
  start : Reach buffer_num start_server
  later : {s t : Server} → Reach buffer_num s → Step buffer_num s t → Reach buffer_num t

-- The requests that wait, in ascending order of their sizes, and those that are taken are the accepted
-- ones.
abbrev pub Waits : Server → List RequestInfor → Type 0
Waits s l = (s.infor_buf ≡ pointers l) × IsSorted l × Perm (s.taken ++ l) s.accepted

-- A lone NULL, after which nothing is put or taken.
abbrev pub IsStuck : Server → Type 0
IsStuck s = s.infor_buf ≡ none ∷ []

put_null : put_sff none [] ≡ some (none ∷ [])
unfolding put_sff bubble
put_null = refl

one_more :
    (taken l l' accepted : List RequestInfor) (x : RequestInfor)
    → Perm l' (x ∷ l)
    → Perm (taken ++ l) accepted
    → Perm (taken ++ l') (accepted ++ (x ∷ []))
one_more taken l l' accepted x p q = Perm.trans (Perm.append_left taken p) (
    Perm.trans (perm_middle taken l) (
      Perm.trans (Perm.cons x q) (
        Perm.symm (
          subst (λ k. Perm (accepted ++ (x ∷ [])) (x ∷ k)) (append-nil accepted)
            (perm_middle accepted [])))))

module _ (n : ℕ) where
  IsServer : Server → Type 0
  IsServer s = (length s.infor_buf + 1 ≤ n) × (IsStuck s ⊎ ((l : List RequestInfor) × Waits s l))

  accept-IsServer :
      (s : Server) (infor : Option RequestInfor) (infor_buf : List (Option RequestInfor))
      → length s.infor_buf + 1 ≢ n
      → put_sff infor s.infor_buf ≡ some infor_buf
      → IsServer s
      → IsServer (record {
        infor_buf = infor_buf;
        accepted = s.accepted ++ requests infor;
        taken = s.taken;
      })
  unfolding IsServer
  accept-IsServer s infor infor_buf room e (b, inl stuck) =
      absurd (none-ne-some _ (sym (ap (put_sff infor) stuck ∙ (put_sff-null [] infor infor).1) ∙ e))
  accept-IsServer s (some x) infor_buf room e (b, inr (l, w)) =
      let next = put_sff-IsSorted l x w.1 in
      let put = sym (ap (put_sff (some x)) w.0) ∙ e in
      let same = some-injective _ _ (sym put ∙ next.1) in
      let longer = length-put_sff l x infor_buf put in
      let before = ap length w.0 ∙ length-map some l in
      (omega arith, inr (next.0, (same, next.2, one_more s.taken l next.0 s.accepted x next.3 w.2)))
  accept-IsServer s none infor_buf room e (b, inr ([], w)) =
      let lone = some-injective _ _ (sym (sym (ap (put_sff none) w.0) ∙ e) ∙ put_null) in
      let before = ap length w.0 in (omega (arith, ap length lone), inl lone)
  accept-IsServer s none infor_buf room e (b, inr (y ∷ l, w)) = absurd (
      none-ne-some _
        (sym (ap (put_sff none) w.0 ∙ (put_sff-null (pointers l) none (some y)).0) ∙ e))

  take_first :
      (l : List RequestInfor) (infor : RequestInfor) (infor_buf : List (Option RequestInfor))
      → consume_sff (pointers l) ≡ some (infor, infor_buf)
      → (rest : List RequestInfor) × (l ≡ infor ∷ rest) × (infor_buf ≡ pointers rest)
  unfolding consume_sff get_sff
  take_first [] infor infor_buf e = absurd (none-ne-some _ e)
  take_first (r ∷ rest) infor infor_buf e =
      let same = some-injective _ _ e in (rest, ap (λ z. z.0 ∷ rest) same, sym (ap (λ z. z.1) same))

  consume-IsServer :
      (s : Server) (infor : RequestInfor) (infor_buf : List (Option RequestInfor))
      → consume_sff s.infor_buf ≡ some (infor, infor_buf)
      → IsServer s
      → IsServer
          (record { infor_buf = infor_buf; accepted = s.accepted; taken = s.taken ++ (infor ∷ []) })
  unfolding IsServer
  consume-IsServer s infor infor_buf e (b, inl stuck) =
      absurd (none-ne-some _ (sym (ap consume_sff stuck ∙ (put_sff-null [] none none).2) ∙ e))
  consume-IsServer s infor infor_buf e (b, inr (l, w)) =
      let t = take_first l infor infor_buf (sym (ap consume_sff w.0) ∙ e) in
      let before = ap length w.0 ∙ length-map some l ∙ ap length t.1 in
      let behind = ap length t.2 ∙ length-map some t.0 in
      (
        omega arith,
        inr (
          t.0,
          (
            t.2,
            (subst IsSorted t.1 w.1).1,
            subst (λ k. Perm k s.accepted)
                (ap (λ k. s.taken ++ k) t.1 ∙ sym (append_assoc s.taken (infor ∷ []) t.0)) w.2,
          ),
        ),
      )

  Reach-IsServer : (s : Server) → 0 < n → Reach n s → IsServer s
  unfolding IsServer
  Reach-IsServer s pos start = (omega arith, inr ([], (refl, tt, Perm.refl [])))
  Reach-IsServer s pos (later {s = t} r (accept infor infor_buf room e)) =
      accept-IsServer t infor infor_buf room e (Reach-IsServer t pos r)
  Reach-IsServer s pos (later {s = t} r (consume infor infor_buf e)) =
      consume-IsServer t infor infor_buf e (Reach-IsServer t pos r)

  -- When `buffer_num` is not 0, in every state that the server reaches under this schedule the buffer
  -- holds at most `buffer_num - 1` entries. They are a lone NULL, or the requests that are accepted and
  -- not taken, each as often as it was accepted, in ascending order of the sizes of their files.
  pub server_sff :
      (s : Server)
      → 0 < n
      → Reach n s
      → (length s.infor_buf + 1 ≤ n) × (IsStuck s ⊎ ((l : List RequestInfor) × Waits s l))
  unfolding IsServer
  server_sff s pos r = Reach-IsServer s pos r

-- With one place in the buffer the main thread waits for ever: no state but the first is reached.
pub server_sff_one_place : (s : Server) → Reach 1 s → s ≡ start_server
unfolding consume_sff get_sff
server_sff_one_place s start = refl
server_sff_one_place s (later {s = t} r (accept infor infor_buf room e)) =
    let first = server_sff_one_place t r in absurd (room (ap (λ u. length u.infor_buf + 1) first))
server_sff_one_place s (later {s = t} r (consume infor infor_buf e)) =
    let first = server_sff_one_place t r in
    absurd (none-ne-some _ (sym (ap (λ u. consume_sff u.infor_buf) first) ∙ e))
