-- ===== src/Tests/Utils.antt =====
-- util/ on small inputs.
use c8005_assn.Base.{
  ℕ, ◌+◌, ◌*◌, ◌/◌, ◌≡◌, refl, ok, List, [], ◌∷◌, some, none, Bool, true, false, ◌⊎◌, arith,
  Returns, update,
}
use mathlib.Core.Option.{none-ne-some}
use c8005_assn.Util.Vector.{Vector, contents, Allocator, remove_at, insert_at, push_back, reverse}
use c8005_assn.Util.Vector.Valid.{IsValid, IsGrowth}
use c8005_assn.Util.Vector.Edit.{IsRefused, Inserted, insert_at_lem, push_back_lem}
use c8005_assn.Util.RingBuffer.{
  System, wins, step_put, reads, begin_system, claimed, release, start, idle, write, read, Reach,
  here, next, puts, writes,
}
use c8005_assn.Util.RingBuffer.Invariant.{Inv}
use c8005_assn.Util.RingBuffer.Safety.{Reach-Inv}
use c8005_assn.Util.RingBuffer.Races.{torn_read}
use c8005_assn.Util.Vector.RoundTrip.{remove_at-insert_at}
use c8005_assn.Util.Vector.Reverse.Reference.{vector_reverse-reverse}
use c8005_assn.Util.RingBuffer.{init}
use c8005_assn.Util.RingBuffer.Queue.{Call, put, get, run_calls, run_queue}
use c8005_assn.Util.RingBuffer.Queue.Refinement.{Agrees, run_calls-Agrees}

-- Memory that has run out: a full vector cannot grow.
abbrev pub no_memory : Allocator ℕ
no_memory = record {
  State = ℕ;
  malloc = λ n s. (none, s);
  realloc = λ old n s. (none, s);
  malloc_struct = λ s. (false, s);
  free = λ block s. s;
  malloc_length = λ n s block e. absurd (nothing e);
  realloc_length = λ old n s block e. absurd (nothing e);
  realloc_keeps = λ old n s block e i h k. absurd (nothing e);
}
  where
    nothing : {block : List ℕ} → none ≡ some block → ⊥
    nothing {block} e = absurd (none-ne-some block e)

abbrev three_of_four : Vector ℕ
three_of_four = record { items = 10 ∷ 20 ∷ 30 ∷ 40 ∷ []; item_size = 8; size = 3; cap = 4 }

three_of_four-IsValid : IsValid three_of_four
three_of_four-IsValid = record { block = refl; within = omega arith; small = omega arith }

abbrev pub half_more : ℕ → ℕ
half_more cap = (3 * cap + 1) / 2

pub half_more-IsGrowth : IsGrowth half_more
half_more-IsGrowth = record { rounds = λ cap h. refl }

insert_at_lem_example :
    (r : Bool × Vector ℕ × ℕ) × (insert_at no_memory half_more three_of_four 25 2 0 ≡ ok r)
    × Inserted no_memory half_more three_of_four 25 2 0 r
insert_at_lem_example =
    insert_at_lem no_memory half_more half_more-IsGrowth three_of_four 25 2 0 three_of_four-IsValid
      (omega arith) (omega arith) (omega arith)

push_back_lem_example :
    (r : Bool × Vector ℕ × ℕ) × (push_back no_memory half_more three_of_four 25 0 ≡ ok r)
    × (IsRefused no_memory half_more three_of_four 0 r
        ⊎ ((r.0 ≡ true) × IsValid r.1 × (contents r.1 ≡ 10 ∷ 20 ∷ 30 ∷ 25 ∷ [])))
push_back_lem_example =
    push_back_lem no_memory half_more half_more-IsGrowth three_of_four 25 0 three_of_four-IsValid
      (omega arith) (omega arith)

abbrev blank : ℕ → ℕ
blank k = 0

torn_read_example :
    (s : System) × Reach blank 4 s × (s.writers 1 ≡ claimed 6 1) × (s.reader ≡ release 1 0)
torn_read_example = torn_read blank 2 5 6

-- A writer takes the position 0, and the reader sees that the ring is not empty.
abbrev one_claimed : System
one_claimed =
    let s = record (begin_system blank 4) { writers = update (λ _. idle) 0 (start 5) } in
    read (read (write (write (write s 0) 0) 0))

one_claimed-Reach : Reach blank 4 one_claimed
one_claimed-Reach =
    next
      (next (next (next (next (next here (puts 0 5 refl)) (writes 0)) (writes 0)) (writes 0)) reads)
      reads

Reach-Inv_example : Inv 4 one_claimed
unfolding wins step_put
Reach-Inv_example = Reach-Inv one_claimed-Reach (omega arith)

remove_at-insert_at_example :
    Returns
      (λ r.
        IsRefused no_memory half_more three_of_four 0 r
        ⊎ ((v' : Vector ℕ) × (remove_at r.1 2 ≡ ok v')
            × IsValid v'
            × (contents v' ≡ 10 ∷ 20 ∷ 30 ∷ [])))
      (insert_at no_memory half_more three_of_four 25 2 0)
remove_at-insert_at_example =
    remove_at-insert_at no_memory half_more half_more-IsGrowth three_of_four 25 2 0
      three_of_four-IsValid (omega arith) (omega arith) (omega arith)

vector_reverse-reverse_example :
    Returns
      (λ r.
        ((r.0 ≡ true) × IsValid r.1 × (contents r.1 ≡ 30 ∷ 20 ∷ 10 ∷ []))
        ⊎ ((r.0 ≡ false)
            × (r.1 ≡ three_of_four)
            × (three_of_four.size ≡ three_of_four.cap)
            × ((no_memory.malloc 1 0).0 ≡ none)))
      (reverse no_memory half_more three_of_four 0)
vector_reverse-reverse_example =
    vector_reverse-reverse no_memory half_more three_of_four 0 three_of_four-IsValid

abbrev some_calls : List Call
some_calls = put 5 ∷ put 6 ∷ get ∷ get ∷ get ∷ []

run_calls-Agrees_example :
    Agrees 2 (run_calls 5 (init blank 2) some_calls) (run_queue 2 [] some_calls)
unfolding init
run_calls-Agrees_example =
    run_calls-Agrees 0 2 some_calls (init blank 2) []
      (record {
        sized = refl;
        held = refl;
        filled = refl;
        fits = omega arith;
        guarded = λ h. absurd (omega (arith, h));
      })
      (omega arith)
