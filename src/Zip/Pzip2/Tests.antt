-- ===== src/Zip/Pzip2/Tests.antt =====
-- Runs of the theorems about pzip2 on small files, and a schedule in which a thread leaves too early.
use ostep_projects_finish.Common.{
  ℕ, ◌+◌, ◌<◌, ◌≡◌, refl, zero, suc, List, [], ◌∷◌, map, true, none, some, length, arith, codes,
  str_eq, if◌then◌else◌, Option,
}
use mathlib.Core.Option
use ostep_projects_finish.Zip.Wzip.{wzip}
use ostep_projects_finish.Zip.Pzip2.{
  Buffer, compress, output, num_of_buffer, buffer_at, buffers_from, handle_file,
}
use ostep_projects_finish.Zip.Pzip2.Threads.{
  compressing, testing, seen_last, returned, Compressors, to, thread_at, Step, Reach,
  start_compressors, all_results,
}
use ostep_projects_finish.Zip.Pzip2.Program.{Dirent}
use ostep_projects_finish.Zip.Pzip2.Claims.{threads-eq-wzip}

abbrev one : List ℕ
one = 97 ∷ 97 ∷ 98 ∷ []

-- One file of three bytes in one buffer, and one thread, which claims the buffer before `handleFile`
-- has ended.
abbrev bufferlist : List Buffer
bufferlist = handle_file 4 (one ∷ [])

abbrev begun : Compressors
begun = start_compressors bufferlist 1 (length bufferlist)

abbrev claimed : Compressors
claimed = record (to 0 (compressing 0) (record begun { count = 0 + 1 })) { index_cthread = 0 + 1 }

abbrev over : Compressors
over =
    to 0 returned
      (record (to 0 seen_last
        (record (to 0 testing claimed) { results = some (compress (buffer_at 4 one 0)) ∷ [] })) {
          handle_file_finish = true;
        })

over-Reach : Reach bufferlist begun over
unfolding handle_file buffers_from num_of_buffer
over-Reach =
    Reach.later
      (Reach.later
        (Reach.later
          (Reach.later
            (Reach.later (Reach.later Reach.start (Step.add refl (omega arith)))
              (Step.claim 0 (omega arith) refl (omega arith)))
            (Step.compress_buffer 0 0 (omega arith) refl))
          (Step.see_last 0 (omega arith) refl refl))
        (Step.finish refl))
      (Step.leave 0 (omega arith) refl refl)

all_over : (t : ℕ) → t < 1 → thread_at over t ≡ returned
all_over zero h = refl
all_over (suc t) h = absurd (omega arith)

threads-eq-wzip_example :
    Option.map output (all_results over.results) ≡ some (wzip (map some (one ∷ []))).out
threads-eq-wzip_example =
    threads-eq-wzip 4 one [] 1 over (omega arith) (omega arith) (omega arith) over-Reach all_over

-- The thread starts before `handleFile` has counted a buffer: it finds its index at `listsize`, waits
-- there until `handleFile` has ended, and leaves with the buffer not compressed.
abbrev early : Compressors
early = start_compressors bufferlist 1 0

abbrev left : Compressors
left =
    to 0 returned
      (record (record (record (to 0 seen_last (to 0 testing early)) { listsize = 0 + 1 }) {
        count = 0 + 1;
      }) { handle_file_finish = true })

left-Reach : Reach bufferlist early left
unfolding handle_file buffers_from num_of_buffer
left-Reach =
    Reach.later
      (Reach.later
        (Reach.later
          (Reach.later
            (Reach.later
              (Reach.later Reach.start (Step.claim_none 0 (omega arith) refl (omega arith)))
              (Step.see_last 0 (omega arith) refl refl))
            (Step.measure 1 (omega arith)))
          (Step.add refl (omega arith)))
        (Step.finish refl))
      (Step.leave 0 (omega arith) refl refl)

left_unset : all_results left.results ≡ none
unfolding handle_file buffers_from num_of_buffer all_results
left_unset = refl

-- The directory "d" holds a file, a directory and another file.
abbrev opendir : List ℕ → Option (List Dirent)
opendir name =
    if str_eq name (codes "d")
    then some (
        record { d_type = 8; d_name = codes "x" }
        ∷ record { d_type = 4; d_name = codes "sub" }
        ∷ record { d_type = 8; d_name = codes "y" }
        ∷ [])
    else none
