-- ===== src/Vector/Tests.antt =====
-- A vector of the numbers 10, 11 and 12, full.
use cynix.Base.{ℕ, ◌+◌, ◌≡◌, true, [], ◌∷◌, ◌==◌, arith}
use cynix.Base.Run.{ok}
use cynix.Vector.{
  Vector, Realloc, vector_push_back, vector_insert, vector_find, vector_remove_by_value,
}
use cynix.Vector.Contents.{IsVector, Edited, vector_insert-Edited, vector_push_back-Edited}
use cynix.Vector.Find.{Removed, vector_remove_by_value-Removed}

abbrev plenty : Realloc ℕ
plenty = record { granted = λ bytes. true; beyond = λ i. 0 }

abbrev demo : Vector ℕ
demo = record { items = λ i. 10 + i; length = 3; capacity = 3 }

demo-IsVector : IsVector demo
demo-IsVector = record { room = omega arith; bounded = omega arith }

vector_insert-Edited_example :
    Edited plenty demo (10 ∷ 7 ∷ 11 ∷ 12 ∷ []) tt (vector_insert plenty 1 7 demo)
vector_insert-Edited_example =
    vector_insert-Edited plenty demo-IsVector (omega arith) 1 7 (omega arith)

vector_push_back-Edited_example :
    Edited plenty demo (10 ∷ 11 ∷ 12 ∷ 7 ∷ []) 3 (vector_push_back plenty 7 demo)
vector_push_back-Edited_example = vector_push_back-Edited plenty demo-IsVector (omega arith) 7

vector_remove_by_value-Removed_example :
    (v' : Vector ℕ) × (vector_remove_by_value ◌==◌ 99 demo ≡ ok tt v')
    × Removed ◌==◌ 99 demo-IsVector v' (vector_find ◌==◌ 99 demo)
vector_remove_by_value-Removed_example =
    vector_remove_by_value-Removed ◌==◌ 99 demo-IsVector (omega arith)
