-- ===== src/LifeCycle/Queue.antt =====
-- The addresses in the queue of the deleter.
use mbtest.Prelude.{
  ℕ, ◌≡◌, refl, ◌∙◌, sym, inl, inr, Bool-cases, false, ◌||◌, ◌&&◌, not, List, [], ◌∷◌, ◌++◌, arith,
  ◌==◌,
}
use mbtest.BaseServer.{contains}
use mbtest.ThreadDeleter.{BlockingCollection, IsFifo}

-- No address twice.
abbrev pub IsOnce : List ℕ → Type 0
IsOnce [] = Unit
IsOnce (x ∷ xs) = (contains xs x ≡ false) × IsOnce xs

pub contains-append :
    (xs : List ℕ) (w v : ℕ) → contains (xs ++ (w ∷ [])) v ≡ (contains xs v || (w == v))
unfolding contains
contains-append [] w v = ground arith
contains-append (x ∷ xs) w v = ground (arith, contains-append xs w v)

pub IsOnce-append :
    (xs : List ℕ) (w : ℕ) → contains xs w ≡ false → IsOnce xs → IsOnce (xs ++ (w ∷ []))
unfolding contains
IsOnce-append [] w new_ h = (refl, tt)
IsOnce-append (x ∷ xs) w new_ (hx, h) = ground (arith, contains-append xs w x, IsOnce-append xs w)

-- The queue after `add`.
module _ {C : BlockingCollection} (F : IsFifo C) (w : ℕ) (q : C.Queue) where
  pub contains-add :
      (v : ℕ)
      → contains (F.items (C.add w q)) v
        ≡ (contains (F.items q) v || (not (F.closed q) && (w == v)))
  contains-add v = elim (Bool-cases (F.closed q)) [
    | inl shut ↦ rw (shut, (F.add_closed w q shut).0) (ground arith)
    | inr open_ ↦ rw (open_, (F.add_open w q open_).0) (contains-append (F.items q) w v)
  ]

  pub closed-add : F.closed (C.add w q) ≡ F.closed q
  closed-add = elim (Bool-cases (F.closed q)) [
    | inl shut ↦ (F.add_closed w q shut).1 ∙ sym shut
    | inr open_ ↦ (F.add_open w q open_).1 ∙ sym open_
  ]

  pub IsOnce-add :
      contains (F.items q) w ≡ false → IsOnce (F.items q) → IsOnce (F.items (C.add w q))
  IsOnce-add new_ h = elim (Bool-cases (F.closed q)) [
    | inl shut ↦ rw (F.add_closed w q shut).0 h
    | inr open_ ↦ rw (F.add_open w q open_).0 (IsOnce-append (F.items q) w new_ h)
  ]
