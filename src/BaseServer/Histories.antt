-- ===== src/BaseServer/Histories.antt =====
-- BaseServer.cpp over any sequence of calls, against sets that have no order.
pub mod Unordered
use mbtest.Prelude.{
  ℕ, ◌<◌, ◌≡◌, refl, ap, ◌∙◌, sym, Bool, false, ◌||◌, ◌&&◌, not, List, [], ◌∷◌, if◌then◌else◌, ◌==◌,
  arith, All,
}
use mbtest.Interfaces.{GlobalService}
use mbtest.Worker.{Heap}
use mbtest.BaseServer.{contains, register_connection, deregister_connection, stop_connections}
use mbtest.BaseServer.Laws.{
  IsAscending, insert-IsAscending, contains-insert, erase-IsAscending, contains-erase,
  stop_connections_lem,
}

contains_lower : (w : ℕ) (xs : List ℕ) → All (λ y. w < y) xs → contains xs w ≡ false
unfolding contains
contains_lower w [] h = refl
contains_lower w (x ∷ xs) (hx, h) = ground (arith, contains_lower w xs h)

not_above : (w x : ℕ) (xs : List ℕ) → All (λ y. x < y) xs → w < x → contains xs w ≡ false
unfolding contains
not_above w x [] h low = refl
not_above w x (y ∷ xs) (hy, h) low = ground (arith, not_above w x xs h low)

-- An ascending list is determined by its members.
pub ascending_unique :
    (xs ys : List ℕ)
    → IsAscending xs
    → IsAscending ys
    → ((v : ℕ) → contains xs v ≡ contains ys v)
    → xs ≡ ys
unfolding contains
ascending_unique [] [] hx hy same = refl
ascending_unique [] (y ∷ ys) hx hy same = absurd (ground (arith, same y))
ascending_unique (x ∷ xs) [] hx hy same = absurd (ground (arith, same x))
ascending_unique (x ∷ xs) (y ∷ ys) (lx, hx) (ly, hy) same =
    let head : x ≡ y = ground (
      arith,
      same x,
      same y,
      contains_lower x xs lx,
      contains_lower y ys ly,
      not_above x y ys ly,
      not_above y x xs lx,
    ) in
    let tail : xs ≡ ys =
      ascending_unique xs ys hx hy
        (λ v. ground (arith, same v, head, contains_lower x xs lx, contains_lower y ys ly)) in
    rw (head, tail) refl

pub data Call : Type 0 where
  registers deregisters : ℕ → Call
  stops : Call

module _ {State : Type 0} (server : GlobalService State) (cancel : ℕ → State → State) where
  -- One call of a method: the set, the workers and the state of the rest.
  pub perform : Call → List ℕ × Heap × State → List ℕ × Heap × State
  perform (registers w) (xs, h, s) = (register_connection w xs, h, s)
  perform (deregisters w) (xs, h, s) =
      let (xs', s') = deregister_connection server w (xs, s) in (xs', h, s')
  perform stops (xs, h, s) = stop_connections cancel xs (h, s)

  pub perform_all : List Call → List ℕ × Heap × State → List ℕ × Heap × State
  perform_all [] t = t
  perform_all (c ∷ cs) t = perform_all cs (perform c t)

-- The same on a set and on the flags, as functions of the address.
abbrev pub Spec : Type 0
Spec = (ℕ → Bool) × (ℕ → Bool)

abbrev pub note : Call → Spec → Spec
note (registers w) (p, f) = (λ v. w == v || p v, f)
note (deregisters w) (p, f) = (λ v. not (w == v) && p v, f)
note stops (p, f) = (λ v. false, λ v. if p v then false else f v)

abbrev pub note_all : List Call → Spec → Spec
note_all [] a = a
note_all (c ∷ cs) a = note_all cs (note c a)

pub record Refines {State : Type 0} (t : List ℕ × Heap × State) (a : Spec) : Type 0 where
  pub ascending : IsAscending t.0
  pub members : (v : ℕ) → contains t.0 v ≡ a.0 v
  pub flags : (v : ℕ) → (t.1 v).b_running ≡ a.1 v

module _ {State : Type 0} (server : GlobalService State) (cancel : ℕ → State → State) where
  perform-Refines :
      (c : Call) (t : List ℕ × Heap × State) (a : Spec)
      → Refines t a
      → Refines (perform server cancel c t) (note c a)
  unfolding perform register_connection deregister_connection contains
  perform-Refines (registers w) (xs, h, s) a r = record {
    ascending = insert-IsAscending w xs r.ascending;
    members = λ v. contains-insert w v xs ∙ ap (λ b. w == v || b) (r.members v);
    flags = r.flags;
  }
  perform-Refines (deregisters w) (xs, h, s) a r = record {
    ascending = erase-IsAscending w xs r.ascending;
    members = λ v. contains-erase w v xs r.ascending ∙ ap (λ b. not (w == v) && b) (r.members v);
    flags = r.flags;
  }
  perform-Refines stops (xs, h, s) a r = record {
    ascending = rw (stop_connections_lem cancel 0 xs h s).0 tt;
    members = λ v. rw (stop_connections_lem cancel v xs h s).0 refl;
    flags = λ v. (stop_connections_lem cancel v xs h s).1 ∙ rw (r.members v, r.flags v) refl;
  }

  -- Whatever calls are made, in whatever order: the set of the server has just the members of a set
  -- that registering puts an address in, deregistering takes it out of and stopping empties, once
  -- each and in ascending order; and a flag has been cleared if its worker was in that set at a
  -- stop.
  pub perform_all-Refines :
      (cs : List Call) (t : List ℕ × Heap × State) (a : Spec)
      → Refines t a
      → Refines (perform_all server cancel cs t) (note_all cs a)
  unfolding perform_all
  perform_all-Refines [] t a r = r
  perform_all-Refines (c ∷ cs) t a r =
      perform_all-Refines cs (perform server cancel c t) (note c a) (perform-Refines c t a r)

  -- The order of calls is forgotten: if two sequences of calls lead to the same members, they leave
  -- the same set, down to the order of its addresses.
  pub histories_agree :
      (cs ds : List Call) (t : List ℕ × Heap × State) (a : Spec)
      → Refines t a
      → ((v : ℕ) → (note_all cs a).0 v ≡ (note_all ds a).0 v)
      → (perform_all server cancel cs t).0 ≡ (perform_all server cancel ds t).0
  histories_agree cs ds t a r same =
      let left = perform_all-Refines cs t a r in
      let right = perform_all-Refines ds t a r in
      ascending_unique _ _ left.ascending right.ascending
        (λ v. left.members v ∙ same v ∙ sym (right.members v))
