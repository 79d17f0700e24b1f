-- ===== src/ModbusServer/Inputs.antt =====
-- The values that `run__` of ModbusServer.cpp gives to the two input tables.
use mbtest.Prelude.{
  ℕ, zero, suc, ◌+◌, ◌≡◌, refl, none, some, List, [], ◌∷◌, ok, if◌then◌else◌, ltb, arith, get_elem?,
}
use mbtest.Interfaces.{cell_or}

-- The cells of the two tables that `run__` fills: input registers 1 to 10, and five inputs on.
abbrev pub one_to_ten : List ℕ
one_to_ten = 1 ∷ 2 ∷ 3 ∷ 4 ∷ 5 ∷ 6 ∷ 7 ∷ 8 ∷ 9 ∷ 10 ∷ []

abbrev pub five_on : List ℕ
five_on = 1 ∷ 1 ∷ 1 ∷ 1 ∷ 1 ∷ 0 ∷ 0 ∷ 0 ∷ 0 ∷ 0 ∷ []

pub get_elem?-one_to_ten :
    (n : ℕ) → get_elem? one_to_ten n ≡ (if ltb n 10 then some (n + 1) else none)
get_elem?-one_to_ten zero = refl
get_elem?-one_to_ten (suc zero) = refl
get_elem?-one_to_ten (suc (suc zero)) = refl
get_elem?-one_to_ten (suc (suc (suc zero))) = refl
get_elem?-one_to_ten (suc (suc (suc (suc zero)))) = refl
get_elem?-one_to_ten (suc (suc (suc (suc (suc zero))))) = refl
get_elem?-one_to_ten (suc (suc (suc (suc (suc (suc zero)))))) = refl
get_elem?-one_to_ten (suc (suc (suc (suc (suc (suc (suc zero))))))) = refl
get_elem?-one_to_ten (suc (suc (suc (suc (suc (suc (suc (suc zero)))))))) = refl
get_elem?-one_to_ten (suc (suc (suc (suc (suc (suc (suc (suc (suc zero))))))))) = refl
get_elem?-one_to_ten (suc (suc (suc (suc (suc (suc (suc (suc (suc (suc n)))))))))) = ground arith

pub one_to_ten_cells :
    (n val : ℕ)
    → cell_or (get_elem? one_to_ten n) val ≡ (if ltb n 10 then ok (1, n + 1) else ok (0, val))
one_to_ten_cells n val = rw get_elem?-one_to_ten (ground arith)

pub five_on_cells :
    (n val : ℕ)
    → cell_or (get_elem? five_on n) val
      ≡ (if ltb n 5 then ok (1, 1) else if ltb n 10 then ok (1, 0) else ok (0, val))
five_on_cells zero val = refl
five_on_cells (suc zero) val = refl
five_on_cells (suc (suc zero)) val = refl
five_on_cells (suc (suc (suc zero))) val = refl
five_on_cells (suc (suc (suc (suc zero)))) val = refl
five_on_cells (suc (suc (suc (suc (suc zero))))) val = refl
five_on_cells (suc (suc (suc (suc (suc (suc zero)))))) val = refl
five_on_cells (suc (suc (suc (suc (suc (suc (suc zero))))))) val = refl
five_on_cells (suc (suc (suc (suc (suc (suc (suc (suc zero)))))))) val = refl
five_on_cells (suc (suc (suc (suc (suc (suc (suc (suc (suc zero))))))))) val = refl
five_on_cells (suc (suc (suc (suc (suc (suc (suc (suc (suc (suc n)))))))))) val = ground arith
