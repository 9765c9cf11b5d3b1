-- ===== src/Zip/Pzip2/Threads.antt =====
-- concurrency-pzip/wzip/pzip2.c: `handleFile` and the threads that run `compressText`, as a step
-- relation whose steps come in any order. What a thread does with the mutex held is one step, and each
-- of the two tests that let it return, which hold no lock, is a step of its own.
use ostep_projects_finish.Common.{
  ℕ, ◌+◌, ◌≤◌, ◌<◌, ◌≡◌, ◌≢◌, Bool, true, false, Option, none, some, List, [], ◌∷◌, length, get_or,
  set, replicate,
}
use ostep_projects_finish.Zip.Runs.{Run}
use ostep_projects_finish.Zip.Pzip2.{Buffer, compress}

-- Where a thread is in the `do` of `compressText`: at its top, in `compress(do_index)`, at the test of
-- `index_cthread`, between this test, passed, and that of `handleFile_finish`, or at its end.
pub data Thread : Type 0 where
  looping : Thread
  compressing : (do_index : ℕ) → Thread
  testing : Thread
  seen_last : Thread
  returned : Thread

-- The globals; `results` are the `result` of the entries of `bufferlist`, `none` where `compress` has
-- not set it.
pub record Compressors : Type 0 where
  pub listsize : ℕ
  pub count : ℕ
  pub handle_file_finish : Bool
  pub index_cthread : ℕ
  pub results : List (Option (List Run))
  pub threads : List Thread

abbrev pub blank : Buffer
blank = record { size = 0; content = [] }

abbrev pub thread_at : Compressors → ℕ → Thread
thread_at s t = get_or s.threads t looping

abbrev pub to : ℕ → Thread → Compressors → Compressors
to t v s = record s { threads = set s.threads t v }

abbrev pub result_at : List (Option (List Run)) → ℕ → Option (List Run)
result_at results i = get_or results i none

-- What `output` finds in `bufferlist`; `none` if a `result` is not set.
unfoldable pub all_results : List (Option (List Run)) → Option (List (List Run))
all_results [] = some []
all_results (none ∷ results) = none
all_results (some r ∷ results) = elim (all_results results) [
  | none ↦ none
  | some rs ↦ some (r ∷ rs)
]

-- `buffers` are the buffers that `handleFile` is going to add.
module _ (buffers : List Buffer) where
  pub data Step (s : Compressors) : Compressors → Type 0 where
    -- A file in the first loop of `handleFile`, which has `n` buffers.
    measure :
        (n : ℕ) → s.listsize + n ≤ length buffers → Step s (record s { listsize = s.listsize + n })
    add :
        s.listsize ≡ length buffers
        → s.count < length buffers
        → Step s (record s { count = s.count + 1 })
    finish : s.count ≡ length buffers → Step s (record s { handle_file_finish = true })
    claim :
        (t : ℕ)
        → t < length s.threads
        → thread_at s t ≡ looping
        → s.index_cthread < s.count
        → Step s
            (record (to t (compressing s.index_cthread) s) { index_cthread = s.index_cthread + 1 })
    claim_none :
        (t : ℕ)
        → t < length s.threads
        → thread_at s t ≡ looping
        → s.count ≤ s.index_cthread
        → Step s (to t testing s)
    compress_buffer :
        (t do_index : ℕ)
        → t < length s.threads
        → thread_at s t ≡ compressing do_index
        → Step s (record (to t testing s) {
          results = set s.results do_index (some (compress (get_or buffers do_index blank)));
        })
    see_last :
        (t : ℕ)
        → t < length s.threads
        → thread_at s t ≡ testing
        → s.index_cthread ≡ s.listsize
        → Step s (to t seen_last s)
    see_more :
        (t : ℕ)
        → t < length s.threads
        → thread_at s t ≡ testing
        → s.index_cthread ≢ s.listsize
        → Step s (to t looping s)
    leave :
        (t : ℕ)
        → t < length s.threads
        → thread_at s t ≡ seen_last
        → s.handle_file_finish ≡ true
        → Step s (to t returned s)
    stay :
        (t : ℕ)
        → t < length s.threads
        → thread_at s t ≡ seen_last
        → s.handle_file_finish ≡ false
        → Step s (to t looping s)

  -- `n` threads at their start, when `handleFile` has counted `listsize` buffers.
  abbrev pub start_compressors : ℕ → ℕ → Compressors
  start_compressors n listsize = record {
    listsize = listsize;
    count = 0;
    handle_file_finish = false;
    index_cthread = 0;
    results = replicate (length buffers) none;
    threads = replicate n looping;
  }

  pub data Reach (s : Compressors) : Compressors → Type 0 where
    start : Reach s s
    later : {t u : Compressors} → Reach s t → Step t u → Reach s u
