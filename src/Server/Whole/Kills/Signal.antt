-- ===== src/Server/Whole/Kills/Signal.antt =====
-- When SIGINT finds a thread in every worker that it stops.
use mbtest.Prelude.{
  ℕ, ◌≡◌, refl, ◌∙◌, Bool, true, false, List, [], ◌∷◌, ok, undefined, inl, inr, if◌then◌else◌, ◌&&◌,
  leb, arith, Bool-cases,
}
use mbtest.BaseServer.{contains}
use mbtest.ThreadDeleter.{BlockingCollection, IsFifo}
use mbtest.LifeCycle.{Phase, absent, created, live, ended}
use mbtest.LifeCycle.Invariant.{is_open, is_absent, has_thread}
use mbtest.Server.Whole.{Program, stop_server, Reach}
use mbtest.Server.Whole.Invariant.{IsWhole}
use mbtest.Server.Whole.Reachable.{Reach-IsWhole}
use mbtest.Server.Whole.Kills.{
  signal_checked, signal-ok, first-undefined, second-undefined, stop_checked-alone,
  stop_checked-undefined, stop_server-joinable, stop_server-sets,
}

abbrev pub is_live : Phase → Bool
is_live absent = false
is_live created = false
is_live live = true
is_live ended = false

abbrev pub all_live : (ℕ → Phase) → List ℕ → Bool
all_live phase [] = true
all_live phase (w ∷ ws) = is_live (phase w) && all_live phase ws

all_live-true :
    (phase : ℕ → Phase) (ws : List ℕ) (v : ℕ)
    → all_live phase ws ≡ true
    → contains ws v ≡ true
    → is_live (phase v) ≡ true
unfolding contains
all_live-true phase [] v all inside = cc
all_live-true phase (w ∷ ws) v all inside = ground (arith, all, inside, all_live-true phase ws v)

all_live-false :
    (phase : ℕ → Phase) (ws : List ℕ)
    → all_live phase ws ≡ false
    → (v : ℕ) × (contains ws v ≡ true) × (is_live (phase v) ≡ false)
unfolding contains
all_live-false phase [] all = cc
all_live-false phase (w ∷ ws) all = elim (Bool-cases (is_live (phase w))) [
  | inl on ↦
      let (v, inside, off) = all_live-false phase ws (ground (arith, all, on)) in
      (v, ground (arith, inside), off)
  | inr off ↦ (w, ground arith, off)
]

-- Both servers have been started and not joined, and the `run` of every connection in their sets
-- has been called.
abbrev pub has_threads : {C : BlockingCollection} → Program C → Bool
has_threads s =
    (leb 2 s.main.place && leb s.main.place 3)
    && (all_live s.phase (s.sets 0) && all_live s.phase (s.sets 1))

open_joinable : (p : Phase) → is_open p ≡ true → has_thread p ≡ is_live p
open_joinable absent h = refl
open_joinable created h = refl
open_joinable live h = refl
open_joinable ended h = cc

open_present : (p : Phase) → is_open p ≡ true → is_absent p ≡ false
open_present absent h = cc
open_present created h = refl
open_present live h = refl
open_present ended h = refl

module _ {C : BlockingCollection} (F : IsFifo C) (fails : ℕ → Bool) (s : Program C) where
  member-joinable :
      (o v : ℕ)
      → IsWhole F fails s
      → contains (s.sets o) v ≡ true
      → (s.main.deleter.workers v).joinable ≡ is_live (s.phase v)
  member-joinable o v i inside =
      let open_ = (i.servers o).registered v inside in
      (i.servers o).own_thread v (open_present (s.phase v) open_) ∙ open_joinable (s.phase v) open_

  first_set-undefined :
      IsWhole F fails s → all_live s.phase (s.sets 0) ≡ false → signal_checked s ≡ undefined
  first_set-undefined i some_ =
      let (v, inside, off) = all_live-false s.phase (s.sets 0) some_ in
      first-undefined s (stop_checked-undefined 0 s v inside (member-joinable 0 v i inside ∙ off))

  second_set-undefined :
      IsWhole F fails s → all_live s.phase (s.sets 1) ≡ false → signal_checked s ≡ undefined
  second_set-undefined i some_ =
      let (v, inside, off) = all_live-false s.phase (s.sets 1) some_ in
      second-undefined s (
        stop_checked-undefined 1 (stop_server 0 s) v (rw (stop_server-sets 0 s 1 refl) inside)
          (stop_server-joinable 0 s v ∙ member-joinable 1 v i inside ∙ off))

  place-undefined :
      IsWhole F fails s
      → (leb 2 s.main.place && leb s.main.place 3) ≡ false
      → signal_checked s ≡ undefined
  place-undefined i out = elim (Bool-cases (s.main.deleter.workers 0).joinable) [
    | inl own ↦
        let none_ : (s.main.deleter.workers 1).joinable ≡ false =
          ground (arith, i.main.joinable 1 refl, i.main.joinable 0 refl, own, out) in
        second-undefined s
          (stop_checked-alone 1 (stop_server 0 s) (stop_server-joinable 0 s 1 ∙ none_))
    | inr lost ↦ first-undefined s (stop_checked-alone 0 s lost)
  ]

  signal-threads :
      IsWhole F fails s
      → (leb 2 s.main.place && leb s.main.place 3) ≡ true
      → all_live s.phase (s.sets 0) ≡ true
      → all_live s.phase (s.sets 1) ≡ true
      → signal_checked s ≡ ok (stop_server 1 (stop_server 0 s))
  signal-threads i at_work first second =
      signal-ok s (ground (arith, i.main.joinable 0 refl, at_work))
        (ground (arith, i.main.joinable 1 refl, at_work))
        (λ v inside. member-joinable 0 v i inside ∙ all_live-true s.phase (s.sets 0) v first inside)
        (λ v inside.
          member-joinable 1 v i inside ∙ all_live-true s.phase (s.sets 1) v second inside)

  -- SIGINT at any time after `main` has set its handler: if both servers have been started and none
  -- has been joined, and `run` has been called for every connection in their sets, it does what
  -- `stop` of the two servers is to do, and otherwise it calls `pthread_kill` without a thread.
  pub signal_kills :
      Reach F fails s
      → signal_checked s
        ≡ (if has_threads s then ok (stop_server 1 (stop_server 0 s)) else undefined)
  signal_kills r =
      let i = Reach-IsWhole F fails r in
      elim (Bool-cases (leb 2 s.main.place && leb s.main.place 3)) [
        | inl at_work ↦ elim (Bool-cases (all_live s.phase (s.sets 0))) [
          | inl first ↦ elim (Bool-cases (all_live s.phase (s.sets 1))) [
            | inl second ↦ rw (at_work, first, second) (signal-threads i at_work first second)
            | inr lost ↦ rw (at_work, first, lost) (second_set-undefined i lost)
          ]
          | inr lost ↦ rw (at_work, lost) (first_set-undefined i lost)
        ]
        | inr out ↦ rw out (place-undefined i out)
      ]
