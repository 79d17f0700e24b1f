-- ===== src/Tests/Sets.antt =====
-- The set of connections at concrete inputs.
use mbtest.Prelude.{ℕ, ◌+◌, ◌≡◌, refl, false, List, [], ◌∷◌, undefined, arith, if◌then◌else◌, ◌==◌}
use mbtest.Interfaces.{GlobalService}
use mbtest.Worker.{Heap, initial}
use mbtest.BaseServer.{contains, erase}
use mbtest.BaseServer.Histories.{
  Call, registers, deregisters, stops, perform_all, Spec, note_all, Refines, perform_all-Refines,
}
use mbtest.BaseServer.Walk.{begin, walk, walk_ended}

abbrev recorder : GlobalService (List ℕ)
recorder = record { delete_worker = λ w s. w ∷ s }

abbrev cancel : ℕ → List ℕ → List ℕ
cancel w s = (w + 100) ∷ s

abbrev empty : List ℕ × Heap × List ℕ
empty = ([], λ v. initial, [])

abbrev nothing : Spec
nothing = (λ v. false, λ v. false)

empty-Refines : Refines empty nothing
unfolding contains
empty-Refines = record { ascending = tt; members = λ v. refl; flags = λ v. refl }

abbrev calls : List Call
calls = registers 9 ∷ registers 3 ∷ deregisters 9 ∷ stops ∷ registers 5 ∷ []

perform_all-Refines_example :
    Refines (perform_all recorder cancel calls empty) (note_all calls nothing)
perform_all-Refines_example = perform_all-Refines recorder cancel calls empty nothing empty-Refines

abbrev connections : List ℕ
connections = 3 ∷ 5 ∷ 9 ∷ []

abbrev workers : Heap
workers v = record { b_running = contains connections v; joinable = contains connections v }

-- The second connection ends while the loop stands at it.
abbrev second_ends : ℕ → List ℕ → List ℕ
second_ends k xs = if k == 1 then erase 5 xs else xs

walk_ended_example :
    walk cancel second_ends 3 0 (begin connections) connections (workers, []) ≡ undefined
walk_ended_example =
    walk_ended cancel second_ends connections 1 5 3 (workers, []) (λ j xs below. ground arith)
      (λ xs. refl) (omega arith) refl (omega arith)
