-- ===== src/Asio.antt =====
-- Boost.Asio and the network behind it, a library outside the repository: the calls that
-- TcpConnection.cpp and mbclient.cpp make on one TCP socket, as a parameter, and what is
-- documented of them on a connected socket.
pub mod Memory
use mbtest.Prelude.{
  ℕ, ◌≤◌, ◌<◌, ◌≡◌, ◌∙◌, Bool, true, false, Option, List, [], ◌++◌, length, length-append, take,
  take-append, drop, drop-append, arith,
}

-- `Socket` is the state of the socket and of all that bears on it. `read s n` and `write` are the
-- composed operations with an error code: the bytes read, whether the code is set, the new state.
pub record Asio : Type 1 where
  pub Socket : Type 0
  pub Endpoint : Type 0
  pub read : Socket → ℕ → List ℕ × Bool × Socket
  pub write : Socket → List ℕ → Bool × Socket
  pub close : Socket → Bool × Socket
  pub has_remote_endpoint : Socket → Bool
  pub resolve : List ℕ → List ℕ → Option Endpoint
  pub connect : Socket → Endpoint → Bool × Socket

-- A socket as a stream. `inbox` is what the peer sends from now on until it ends its side, `outbox`
-- is what has been sent to it. `read` waits for all that it is asked for; it sets the error code if
-- the peer ends first. `write` sends all while the connection lives.
pub record IsStream (A : Asio) : Type 0 where
  pub live : A.Socket → Bool
  pub inbox : A.Socket → List ℕ
  pub outbox : A.Socket → List ℕ
  pub read_enough :
      (s : A.Socket) (n : ℕ)
      → live s ≡ true
      → n ≤ length (inbox s)
      → ((A.read s n).0 ≡ take n (inbox s))
        × ((A.read s n).1 ≡ false)
        × (live (A.read s n).2 ≡ true)
        × (inbox (A.read s n).2 ≡ drop n (inbox s))
        × (outbox (A.read s n).2 ≡ outbox s)
  pub read_short :
      (s : A.Socket) (n : ℕ)
      → live s ≡ true
      → length (inbox s) < n
      → ((A.read s n).0 ≡ inbox s)
        × ((A.read s n).1 ≡ true)
        × (live (A.read s n).2 ≡ true)
        × (inbox (A.read s n).2 ≡ [])
        × (outbox (A.read s n).2 ≡ outbox s)
  pub write_all :
      (s : A.Socket) (bytes : List ℕ)
      → live s ≡ true
      → ((A.write s bytes).0 ≡ false)
        × (live (A.write s bytes).1 ≡ true)
        × (inbox (A.write s bytes).1 ≡ inbox s)
        × (outbox (A.write s bytes).1 ≡ outbox s ++ bytes)

module _ {A : Asio} (S : IsStream A) where
  open S use {live, inbox, outbox}

  -- The socket is connected, `i` is still to come and `o` has been sent.
  pub record Holds (s : A.Socket) (i o : List ℕ) : Type 0 where
    pub alive : live s ≡ true
    pub incoming : inbox s ≡ i
    pub sent : outbox s ≡ o

  pub write-Holds :
      {s : A.Socket} {i o : List ℕ} (bytes : List ℕ)
      → Holds s i o
      → Holds (A.write s bytes).1 i (o ++ bytes)
  write-Holds {s} bytes h =
      let (_, alive, incoming, sent) = S.write_all s bytes h.alive in
      record { alive = alive; incoming = incoming ∙ h.incoming; sent = sent ∙ rw h.sent }

  pub write-ok :
      {s : A.Socket} {i o : List ℕ} (bytes : List ℕ) → Holds s i o → (A.write s bytes).0 ≡ false
  write-ok {s} bytes h = (S.write_all s bytes h.alive).0

  -- Reading exactly the bytes that come next.
  pub read-Holds :
      {s : A.Socket} {i o : List ℕ} (bytes : List ℕ)
      → Holds s (bytes ++ i) o
      → ((A.read s (length bytes)).0 ≡ bytes)
        × ((A.read s (length bytes)).1 ≡ false)
        × Holds (A.read s (length bytes)).2 i o
  read-Holds {s} {i} bytes h =
      let enough : length bytes ≤ length (inbox s) =
        rw h.incoming (omega (arith, length-append bytes i)) in
      let (got, fine, alive, incoming, sent) = S.read_enough s (length bytes) h.alive enough in
      (
        got ∙ rw h.incoming (take-append bytes i),
        fine,
        record {
          alive = alive;
          incoming = incoming ∙ rw h.incoming (drop-append bytes i);
          sent = sent ∙ h.sent;
        },
      )

  pub read_short-Holds :
      {s : A.Socket} {i o : List ℕ} (n : ℕ)
      → Holds s i o
      → length i < n
      → ((A.read s n).0 ≡ i) × ((A.read s n).1 ≡ true) × Holds (A.read s n).2 [] o
  read_short-Holds {s} n h short =
      let (got, failed, alive, incoming, sent) = S.read_short s n h.alive (rw h.incoming short) in
      (
        got ∙ h.incoming,
        failed,
        record { alive = alive; incoming = incoming; sent = sent ∙ h.sent },
      )
