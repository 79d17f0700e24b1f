-- ===== src/BaseServer.antt =====
-- BaseServer.h and BaseServer.cpp: the set of a server's open connections.
-- `std::set<Worker *>` is the list of the addresses in ascending order.
pub mod Laws
pub mod Accept
pub mod Histories
pub mod Walk
pub mod Kills
use mbtest.Prelude.{ℕ, Bool, true, false, ◌||◌, List, [], ◌∷◌, if◌then◌else◌, ltb, ◌==◌}
use mbtest.Interfaces.{BaseService, GlobalService}
use mbtest.Worker.{Heap, stop}

-- `std::set::insert`, `erase`, and whether an address is in the set.
unfoldable pub insert : ℕ → List ℕ → List ℕ
insert w [] = w ∷ []
insert w (x ∷ xs) = if w == x then x ∷ xs else if ltb w x then w ∷ x ∷ xs else x ∷ insert w xs

pub erase : ℕ → List ℕ → List ℕ
erase w [] = []
erase w (x ∷ xs) = if w == x then xs else x ∷ erase w xs

unfoldable pub contains : List ℕ → ℕ → Bool
contains [] w = false
contains (x ∷ xs) w = x == w || contains xs w

unfoldable pub register_connection : ℕ → List ℕ → List ℕ
register_connection w connections = insert w connections

-- The set and the state of the global service `server_`, both under the mutex.
unfoldable pub deregister_connection :
    {State : Type 0} → GlobalService State → ℕ → List ℕ × State → List ℕ × State
deregister_connection server w (connections, s) = (erase w connections, server.delete_worker w s)

-- The loop of `stopConnections`; it does not take the mutex.
pub stop_all : {State : Type 0} (cancel : ℕ → State → State) → List ℕ → Heap × State → Heap × State
stop_all cancel [] s = s
stop_all cancel (w ∷ ws) s = stop_all cancel ws (stop cancel w s)

-- The set is empty afterwards.
pub stop_connections :
    {State : Type 0} (cancel : ℕ → State → State) → List ℕ → Heap × State → List ℕ × Heap × State
stop_connections cancel connections s = let (h, s') = stop_all cancel connections s in ([], h, s')

-- The server as `IBaseService`.
abbrev pub base_service : {State : Type 0} → GlobalService State → BaseService (List ℕ × State)
base_service server = record {
  register_connection = λ w (connections, s). (register_connection w connections, s);
  deregister_connection = deregister_connection server;
}
