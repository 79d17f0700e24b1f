-- ===== src/BaseServer/Histories/Unordered.antt =====
-- BaseServer.cpp against sets: what its set of connections is up to order and repetition.
use mathlib.Core.Quot
use mathlib.Core.Quot.{Quot, Quot-set}
use mathlib.Core.List as ListLaws
use native.Mathlib.Nat.{ℕ_set}
use mbtest.Prelude.{
  ℕ, ◌≡◌, refl, ap, ◌∙◌, sym, ◌||◌, ◌&&◌, not, List, [], ◌∷◌, if◌then◌else◌, ◌==◌, arith,
}
use mbtest.BaseServer.{insert, contains}
use mbtest.BaseServer.Laws.{IsAscending, insert-IsAscending, contains-insert}
use mbtest.BaseServer.Histories.{ascending_unique, Call, registers, deregisters, stops}

abbrev pub SameMembers : List ℕ → List ℕ → Type 0
SameMembers xs ys = (v : ℕ) → contains xs v ≡ contains ys v

-- A finite set of addresses.
abbrev pub Members : Type 0
Members = Quot SameMembers

abbrev pub of_list : List ℕ → Members
of_list = Quot.mk

abbrev without : ℕ → List ℕ → List ℕ
without w [] = []
without w (x ∷ xs) = if w == x then without w xs else x ∷ without w xs

contains-without :
    (w v : ℕ) (xs : List ℕ) → contains (without w xs) v ≡ (not (w == v) && contains xs v)
unfolding contains
contains-without w v [] = ground arith
contains-without w v (x ∷ xs) = ground (arith, contains-without w v xs)

same-cons :
    (w v : ℕ) (xs ys : List ℕ)
    → contains xs v ≡ contains ys v
    → contains (w ∷ xs) v ≡ contains (w ∷ ys) v
unfolding contains
same-cons w v xs ys h = ap (λ b. w == v || b) h

pub put : ℕ → Members → Members
put w =
    Quot.lift Quot-set (λ xs. of_list (w ∷ xs)) λ xs ys h. Quot.sound λ v. same-cons w v xs ys (h v)

pub remove : ℕ → Members → Members
remove w =
    Quot.lift Quot-set (λ xs. of_list (without w xs))
      λ xs ys h. Quot.sound λ v.
        contains-without w v xs ∙ ap (λ b. not (w == v) && b) (h v) ∙ sym (contains-without w v ys)

-- The set as `std::set` holds it.
abbrev sorted : List ℕ → List ℕ
sorted [] = []
sorted (x ∷ xs) = insert x (sorted xs)

sorted-IsAscending : (xs : List ℕ) → IsAscending (sorted xs)
sorted-IsAscending [] = tt
sorted-IsAscending (x ∷ xs) = insert-IsAscending x (sorted xs) (sorted-IsAscending xs)

contains-sorted : (v : ℕ) (xs : List ℕ) → contains (sorted xs) v ≡ contains xs v
unfolding contains
contains-sorted v [] = refl
contains-sorted v (x ∷ xs) =
    contains-insert x v (sorted xs) ∙ ap (λ b. x == v || b) (contains-sorted v xs)

pub in_order : Members → List ℕ
in_order = Quot.lift (ListLaws.is_set ℕ_set) sorted λ xs ys h.
    ascending_unique (sorted xs) (sorted ys) (sorted-IsAscending xs) (sorted-IsAscending ys)
      λ v. contains-sorted v xs ∙ h v ∙ sym (contains-sorted v ys)

-- Read in ascending order and back, a set is what it was; so is what `std::set` holds.
pub of_list-in_order : (m : Members) → of_list (in_order m) ≡ m
unfolding in_order
of_list-in_order = Quot.ind (λ m. Quot-set _ _) (λ xs. Quot.sound (λ v. contains-sorted v xs))

pub in_order-of_list : (xs : List ℕ) → IsAscending xs → in_order (of_list xs) ≡ xs
unfolding in_order
in_order-of_list xs up =
    ascending_unique (sorted xs) xs (sorted-IsAscending xs) up (λ v. contains-sorted v xs)

-- In a set order and repetition are gone.
pub put_comm : (x y : ℕ) (m : Members) → put x (put y m) ≡ put y (put x m)
unfolding put contains
put_comm x y = Quot.ind (λ m. Quot-set _ _) (λ xs. Quot.sound (λ v. ground arith))

pub put_twice : (x : ℕ) (m : Members) → put x (put x m) ≡ put x m
unfolding put contains
put_twice x = Quot.ind (λ m. Quot-set _ _) (λ xs. Quot.sound (λ v. ground arith))

-- The calls of BaseServer, on sets.
pub act : Call → Members → Members
act (registers w) m = put w m
act (deregisters w) m = remove w m
act stops m = of_list []

pub act_all : List Call → Members → Members
act_all [] m = m
act_all (c ∷ cs) m = act_all cs (act c m)
