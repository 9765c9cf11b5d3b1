-- ===== src/Web/Options/Fifo.antt =====
-- concurrency-webserver/src_multi/wserver.c: the server that `main` starts from its options serves in order.
use ostep_projects_finish.Common.{
  ℕ, zero, suc, ◌≤◌, ◌<◌, ◌≡◌, refl, sym, ap, subst, Bool, true, false, Option, none, some, List,
  ◌++◌, length, All, if◌then◌else◌, codes, str_eq, arith,
}
use ostep_projects_finish.Common.Text.{Bytes}
use ostep_projects_finish.Web.Buffer.{Server, Reach, waiting, server_fifo}
use ostep_projects_finish.Web.Options.{
  ℤ, Settings, thread_consumer, Started, Start, usage, died, no_array, started, pos, negsuc, places,
  create_threads, get_options, start_threads, start, main, default_settings,
}

create_threads-All :
    (n : ℕ) (schedule : Bytes)
    → str_eq schedule (codes "SFF") ≡ false
    → All (λ k. k ≡ thread_consumer) (create_threads n schedule)
      × (length (create_threads n schedule) ≡ n)
unfolding create_threads
create_threads-All zero schedule h = (tt, refl)
create_threads-All (suc n) schedule h =
    let rest = create_threads-All n schedule h in ((rw h refl, rest.0), ap suc rest.1)

-- A server that is started has a place in its buffer, a thread, and threads for its schedule.
abbrev IsReady : Started → Type 0
IsReady t = (0 < t.buffer_num) × ((n : ℕ) × (0 < n) × (t.threads ≡ create_threads n t.schedule))

abbrev AllReady : Start → Type 0
AllReady usage = Unit
AllReady died = Unit
AllReady no_array = Unit
AllReady (started t) = IsReady t

module _ (atoi : Bytes → ℤ) (chdir : Bytes → Bool) (open_listen_fd : ℤ → Bool) where
  start_threads-AllReady :
      (n : ℕ) (s : Settings) → 0 < n → AllReady (start_threads atoi chdir open_listen_fd n s)
  unfolding start_threads
  start_threads-AllReady n s positive = with_root (chdir s.root_dir)
    where
      listening :
          (m : ℕ) (b : Bool)
          → AllReady (
              if b
              then started (record {
                schedule = s.schedule;
                buffer_num = n;
                threads = create_threads (suc m) s.schedule;
              })
              else died)
      listening m true = (positive, (suc m, omega arith, refl))
      listening m false = tt

      with_threads :
          (size : ℤ)
          → AllReady (elim (places size) [
            | none ↦ no_array
            | some thread_num ↦
                if open_listen_fd s.port
                then started (record {
                  schedule = s.schedule;
                  buffer_num = n;
                  threads = create_threads thread_num s.schedule;
                })
                else died
          ])
      with_threads (pos zero) = tt
      with_threads (pos (suc m)) = listening m (open_listen_fd s.port)
      with_threads (negsuc m) = tt

      with_root :
          (b : Bool)
          → AllReady (
              if b
              then elim (places s.thread_num) [
                | none ↦ no_array
                | some thread_num ↦
                    if open_listen_fd s.port
                    then started (record {
                      schedule = s.schedule;
                      buffer_num = n;
                      threads = create_threads thread_num s.schedule;
                    })
                    else died
              ]
              else died)
      with_root true = with_threads s.thread_num
      with_root false = tt

  start-AllReady : (s : Settings) → AllReady (start atoi chdir open_listen_fd s)
  unfolding start
  start-AllReady s = with_buffer s.buffer_num
    where
      with_buffer :
          (size : ℤ)
          → AllReady (elim (places size) [
            | none ↦ no_array
            | some buffer_num ↦ start_threads atoi chdir open_listen_fd buffer_num s
          ])
      with_buffer (pos zero) = tt
      with_buffer (pos (suc m)) = start_threads-AllReady (suc m) s (omega arith)
      with_buffer (negsuc m) = tt

  main-AllReady : (options : List (ℕ × Bytes)) → AllReady (main atoi chdir open_listen_fd options)
  unfolding main
  main-AllReady options = with_options (get_options atoi options default_settings)
    where
      with_options :
          (o : Option Settings)
          → AllReady (elim o [ none ↦ usage | some s ↦ start atoi chdir open_listen_fd s ])
      with_options none = tt
      with_options (some s) = start-AllReady s

  -- When `main` starts a server whose schedule is not "SFF", whatever the options and the outcomes of
  -- `atoi`, `chdir` and `open_listen_fd` are, all its threads are FIFO workers and there is one at least, and
  -- in every state that the FIFO server reaches the buffer holds at most `buffer_num` connections, and
  -- those that workers have got, in order, followed by those that wait are the accepted ones.
  pub main-server_fifo :
      (options : List (ℕ × Bytes)) (t : Started) (s : Server)
      → main atoi chdir open_listen_fd options ≡ started t
      → str_eq t.schedule (codes "SFF") ≡ false
      → Reach t.buffer_num s
      → (0 < length t.threads)
        × All (λ k. k ≡ thread_consumer) t.threads
        × (s.buffer.count ≤ t.buffer_num)
        × (s.taken ++ waiting t.buffer_num s.buffer ≡ s.accepted)
  main-server_fifo options t s e fifo r =
      let (room, (n, positive, threads)) = subst AllReady e (main-AllReady options) in
      let workers = create_threads-All n t.schedule fifo in
      (
        omega (arith, ap length threads, workers.1),
        subst (All (λ k. k ≡ thread_consumer)) (sym threads) workers.0,
        (server_fifo t.buffer_num s room r).0,
        (server_fifo t.buffer_num s room r).1,
      )
