-- ===== src/LibGen/Cache/Tests.antt =====
-- Runs of the cache of LibGen/Cache, and its theorems at concrete inputs.
use pullbox_direct_providers.Prelude.{
  ℕ, ◌≤◌, ◌≡◌, refl, true, Option, none, some, List, [], ◌∷◌, arith, ℕ_eq, String_eq, String,
  List_eq,
}
use pullbox_direct_providers.Prelude.Dict.{lookup, remove, put, move_to_end}
use pullbox_direct_providers.LibGen.Cache.{BoundedTtlCache, new, evict, get, set, lifetime, miss}
use pullbox_direct_providers.LibGen.Cache.Bounds.{IsValid}
use pullbox_direct_providers.LibGen.Cache.Freshness.{Call, get_call, set_call, run, run-IsValid}
use pullbox_direct_providers.LibGen.Cache.Refinement.{
  IsInOrder, sets, answers, dict_answers, answers-dict_answers,
}

abbrev empty : BoundedTtlCache String ℕ
empty = record { max_entries = 2; ttl_seconds = 600; negative_ttl_seconds = 120; entries = [] }

made : Path (Option (BoundedTtlCache String ℕ)) (new 2 600 120) (some empty)
unfolding new
made = refl

abbrev two : BoundedTtlCache String ℕ
two = set (set empty 0 "a" (some 1)) 1 "b" none

evicts_oldest :
    (set two 2 "c" (some 3)).entries
    ≡ ("b", record { value = none; expires_at = 121 })
      ∷ ("c", record { value = some 3; expires_at = 602 })
      ∷ []
unfolding set evict move_to_end put lookup remove
evicts_oldest = refl

run-IsValid_example : IsValid (run empty (set_call 0 "a" (some 1) ∷ get_call 700 "a" ∷ []))
run-IsValid_example =
    run-IsValid 2 600 120 empty (set_call 0 "a" (some 1) ∷ get_call 700 "a" ∷ []) made

abbrev calls : List (Call String ℕ)
calls =
    set_call 0 "a" (some 1)
    ∷ get_call 5 "a"
    ∷ get_call 6 "b"
    ∷ set_call 7 "b" none
    ∷ get_call 126 "b"
    ∷ get_call 127 "b"
    ∷ get_call 599 "a"
    ∷ get_call 600 "a"
    ∷ []

answered :
    answers empty calls
    ≡ record { hit = true; value = some 1 }
      ∷ miss
      ∷ record { hit = true; value = none }
      ∷ miss
      ∷ record { hit = true; value = some 1 }
      ∷ miss
      ∷ []
unfolding answers get set evict move_to_end put lookup remove
answered = refl

calls-IsInOrder : IsInOrder 0 calls
calls-IsInOrder = (
  omega arith,
  (
    omega arith,
    (omega arith, (omega arith, (omega arith, (omega arith, (omega arith, (omega arith, tt)))))),
  ),
)

two_sets : sets calls ≤ 2
unfolding sets
two_sets = omega arith

answers-dict_answers_example : answers empty calls ≡ dict_answers (lifetime empty) [] calls
answers-dict_answers_example =
    answers-dict_answers 2 600 120 empty calls made calls-IsInOrder two_sets
