-- ===== src/Web/Buffer.antt =====
-- concurrency-webserver/src_multi/wserver.c: the circular buffer of connections, and the FIFO schedule
-- as a step relation. The mutex is held from `pthread_mutex_lock` to `pthread_mutex_unlock` but for
-- the waits, so the test that ends the wait and the call of `put` or `get` are one step; the steps of
-- the main thread and of any number of workers come in any order.
use ostep_projects_finish.Common.{
  ℕ, suc, ◌+◌, ◌-◌, ◌%◌, ◌≤◌, ◌<◌, ◌≡◌, ◌≢◌, refl, sym, ap, ◌∙◌, List, [], ◌∷◌, ◌++◌, append_assoc,
  length, get_or, set, replicate, length-set, length-replicate, arith,
}
use ostep_projects_finish.Common.Ring.{slots, slots-set, slots-suc}
use native.Mathlib.Nat.{mod-add-mod, mod-eq_of_lt, mod-lt}

-- The array, which `main` allocates with `buffer_num` places, and the globals.
pub record Buffer : Type 0 where
  pub slot : List ℕ
  pub fill : ℕ
  pub use_from : ℕ
  pub count : ℕ

unfoldable pub put : ℕ → ℕ → Buffer → Buffer
put buffer_num value b = record {
  slot = set b.slot b.fill value;
  fill = (b.fill + 1) % buffer_num;
  use_from = b.use_from;
  count = b.count + 1;
}

unfoldable pub get : ℕ → Buffer → ℕ × Buffer
get buffer_num b = (
  get_or b.slot b.use_from 0,
  record b { use_from = (b.use_from + 1) % buffer_num; count = b.count - 1 },
)

-- The array is not initialised; 0 stands for what it holds.
abbrev pub start_buffer : ℕ → Buffer
start_buffer buffer_num = record {
  slot = replicate buffer_num 0;
  fill = 0;
  use_from = 0;
  count = 0;
}

-- The server with two lists of connections for the record: those that the main thread has accepted
-- and put, and those that workers have got, each in order.
pub record Server : Type 0 where
  pub buffer : Buffer
  pub accepted : List ℕ
  pub taken : List ℕ

abbrev pub start_server : ℕ → Server
start_server buffer_num = record { buffer = start_buffer buffer_num; accepted = []; taken = [] }

-- A round of the loop of `main`, and one of `thread_consumer` up to its call of `request_handle`.
pub data Step (buffer_num : ℕ) (s : Server) : Server → Type 0 where
  accept :
      (conn_fd : ℕ)
      → s.buffer.count ≢ buffer_num
      → Step buffer_num s (record {
        buffer = put buffer_num conn_fd s.buffer;
        accepted = s.accepted ++ (conn_fd ∷ []);
        taken = s.taken;
      })
  consume :
      s.buffer.count ≢ 0
      → Step buffer_num s (record {
        buffer = (get buffer_num s.buffer).1;
        accepted = s.accepted;
        taken = s.taken ++ ((get buffer_num s.buffer).0 ∷ []);
      })

pub data Reach (buffer_num : ℕ) : Server → Type 0 where
  start : Reach buffer_num (start_server buffer_num)
  later : {s t : Server} → Reach buffer_num s → Step buffer_num s t → Reach buffer_num t

-- The connections that wait, the oldest first.
abbrev pub waiting : ℕ → Buffer → List ℕ
waiting buffer_num b = slots 0 buffer_num b.slot b.use_from 0 b.count

module _ (n : ℕ) where
  abbrev pub IsBuffer : Buffer → Type 0
  IsBuffer b =
      (b.count ≤ n) × (b.use_from < n) × (length b.slot ≡ n) × (b.fill ≡ (b.use_from + b.count) % n)

  put-IsBuffer : (v : ℕ) (b : Buffer) → IsBuffer b → b.count < n → IsBuffer (put n v b)
  unfolding put
  put-IsBuffer v b w h = (
    omega arith,
    w.1,
    length-set b.slot b.fill v ∙ w.2,
    ap (λ k. (k + 1) % n) w.3
        ∙ mod-add-mod (b.use_from + b.count) n 1
        ∙ ap (λ k. k % n)
            (let e : b.use_from + b.count + 1 ≡ b.use_from + (b.count + 1) = omega arith in e),
  )

  -- `put` in a buffer that is not full adds the connection behind those that wait.
  pub waiting-put :
      (v : ℕ) (b : Buffer)
      → IsBuffer b
      → b.count < n
      → waiting n (put n v b) ≡ waiting n b ++ (v ∷ [])
  unfolding put
  waiting-put v b w h =
      ap (λ c. slots 0 n (set b.slot b.fill v) b.use_from 0 c)
        (let e : b.count + 1 ≡ suc b.count = omega arith in e)
      ∙ ap (λ i. slots 0 n (set b.slot i v) b.use_from 0 (suc b.count)) w.3
      ∙ slots-set 0 n b.slot b.use_from b.count v (omega (arith, w.2)) w.1 h

  get-IsBuffer : (b : Buffer) → IsBuffer b → b.count ≢ 0 → IsBuffer ((get n b).1)
  unfolding get
  get-IsBuffer b w h = (
    omega arith,
    mod-lt (b.use_from + 1) (omega (arith, w.1)),
    w.2,
    w.3
        ∙ ap (λ k. k % n)
            (let e : b.use_from + b.count ≡ b.use_from + 1 + (b.count - 1) = omega arith in e)
        ∙ sym (mod-add-mod (b.use_from + 1) n (b.count - 1)),
  )

  -- `get` on a buffer with a connection gives the one that waits longest and leaves the others.
  pub waiting-get :
      (b : Buffer) → IsBuffer b → b.count ≢ 0 → waiting n b ≡ (get n b).0 ∷ waiting n ((get n b).1)
  unfolding get
  waiting-get b w h =
      ap (λ c. slots 0 n b.slot b.use_from 0 c)
        (let e : b.count ≡ suc (b.count - 1) = omega arith in e)
      ∙ slots-suc 0 n b.slot b.use_from (b.count - 1) w.1

  abbrev IsServer : Server → Type 0
  IsServer s = IsBuffer s.buffer × (s.taken ++ waiting n s.buffer ≡ s.accepted)

  Step-IsServer : (s t : Server) → Step n s t → IsServer s → IsServer t
  Step-IsServer s t (Step.accept fd h) (w, e) =
      let room : s.buffer.count < n = omega (arith, w.0) in
      (
        put-IsBuffer fd s.buffer w room,
        ap (λ q. s.taken ++ q) (waiting-put fd s.buffer w room)
            ∙ sym (append_assoc s.taken (waiting n s.buffer) (fd ∷ []))
            ∙ ap (λ q. q ++ (fd ∷ [])) e,
      )
  Step-IsServer s t (Step.consume h) (w, e) = (
    get-IsBuffer s.buffer w h,
    append_assoc s.taken ((get n s.buffer).0 ∷ []) (waiting n ((get n s.buffer).1))
        ∙ sym (ap (λ q. s.taken ++ q) (waiting-get s.buffer w h))
        ∙ e,
  )

  -- When `buffer_num` is not 0, in every state that the FIFO server reaches, the buffer holds at most
  -- `buffer_num` connections, and the connections that workers have got, in order, followed by those
  -- that wait are the accepted ones: none is lost, doubled or overtaken.
  pub server_fifo :
      (s : Server)
      → 0 < n
      → Reach n s
      → (s.buffer.count ≤ n) × (s.taken ++ waiting n s.buffer ≡ s.accepted)
  server_fifo s pos r = (let i = go s r in (i.0.0, i.1))
    where
      go : (s : Server) → Reach n s → IsServer s
      go s (Reach.start) =
          ((omega arith, pos, length-replicate n 0, sym (mod-eq_of_lt {n = 0} {m = n} pos)), refl)
      go s (Reach.later {s = s'} r d) = Step-IsServer s' s d (go s' r)
