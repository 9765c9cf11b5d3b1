-- ===== src/Web/Options/Tests.antt =====
-- Runs of the threaded server's options.
use ostep_projects_finish.Common.{
  ℕ, ◌-◌, ◌≤◌, ◌<◌, ◌≡◌, refl, true, some, List, [], ◌∷◌, ◌++◌, length, All, codes, str_eq, arith,
}
use ostep_projects_finish.Common.Text.{Bytes}
use ostep_projects_finish.Web.Buffer.{Server, start_server, put, Step, Reach, waiting}
use ostep_projects_finish.Web.Options.{
  ℤ, pos, default_settings, thread_consumer, thread_consumer_sff, Started, started, usage, no_array,
  create_threads, set_option, get_options, start_threads, start, main, last_of, all_known,
}
use ostep_projects_finish.Web.Options.Last.{get_options-last}
use ostep_projects_finish.Web.Options.Fifo.{main-server_fifo}

-- The value of the first digit.
abbrev first_digit : Bytes → ℤ
first_digit [] = pos 0
first_digit (c ∷ s) = pos (c - 48)

abbrev two_buffers : List (ℕ × Bytes)
two_buffers = (98, codes "3") ∷ (116, codes "1") ∷ (98, codes "2") ∷ []

get_options-last_example :
    get_options first_digit two_buffers default_settings
    ≡ some (record {
      root_dir = codes ".";
      port = pos 10000;
      buffer_num = pos 2;
      thread_num = pos 1;
      schedule = codes "FIFO";
    })
unfolding last_of all_known
get_options-last_example = get_options-last first_digit two_buffers default_settings

abbrev one_thread : Started
one_thread = record { schedule = codes "FIFO"; buffer_num = 2; threads = thread_consumer ∷ [] }

abbrev one_put : Server
one_put = record { buffer = put 2 7 (start_server 2).buffer; accepted = [] ++ (7 ∷ []); taken = [] }

starts_one_thread : main first_digit (λ dir. true) (λ port. true) two_buffers ≡ started one_thread
unfolding main get_options set_option start start_threads create_threads str_eq
starts_one_thread = refl

main-server_fifo_example :
    (0 < length one_thread.threads)
    × All (λ k. k ≡ thread_consumer) one_thread.threads
    × (one_put.buffer.count ≤ one_thread.buffer_num)
    × (one_put.taken ++ waiting one_thread.buffer_num one_put.buffer ≡ one_put.accepted)
main-server_fifo_example =
    main-server_fifo first_digit (λ dir. true) (λ port. true) two_buffers one_thread one_put
      starts_one_thread (unfold str_eq in refl)
      (Reach.later Reach.start (Step.accept 7 (omega arith)))

-- The schedule decides on the threads; an unknown option and a buffer without places start none.
two_sff_threads :
    main first_digit (λ dir. true) (λ port. true) ((115, codes "SFF") ∷ (116, codes "2") ∷ [])
    ≡ started (record {
      schedule = codes "SFF";
      buffer_num = 16;
      threads = thread_consumer_sff ∷ thread_consumer_sff ∷ [];
    })
unfolding main get_options set_option start start_threads create_threads str_eq
two_sff_threads = refl

unknown_option :
    main first_digit (λ dir. true) (λ port. true) ((98, codes "2") ∷ (63, []) ∷ []) ≡ usage
unfolding main get_options set_option
unknown_option = refl

no_places : main first_digit (λ dir. true) (λ port. true) ((98, codes "0") ∷ []) ≡ no_array
unfolding main get_options set_option start
no_places = refl
