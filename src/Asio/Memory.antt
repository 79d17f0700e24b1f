-- ===== src/Asio/Memory.antt =====
-- A socket as two lists of bytes: an instance of the interface that meets what is asked of it.
use mbtest.Prelude.{
  ℕ, refl, Bool, true, false, if◌then◌else◌, leb, ltb, none, some, List, [], ◌++◌, length, not,
  take, drop, arith,
}
use mbtest.Asio.{Asio, IsStream, Holds}

pub record Pipe : Type 0 where
  pub open_ : Bool
  pub incoming : List ℕ
  pub sent : List ℕ

-- A name resolves if it is not empty, and every endpoint accepts.
abbrev pub memory : Asio
memory = record {
  Socket = Pipe;
  Endpoint = Unit {0};
  read = λ s n.
      if not s.open_
      then ([], true, s)
      else if leb n (length s.incoming)
      then (take n s.incoming, false, record s { incoming = drop n s.incoming })
      else (s.incoming, true, record s { incoming = [] });
  write = λ s bytes. if s.open_ then (false, record s { sent = s.sent ++ bytes }) else (true, s);
  close = λ s. (false, record s { open_ = false });
  has_remote_endpoint = λ s. s.open_;
  resolve = λ host service. if ltb 0 (length host) then some tt else none;
  connect = λ s endpoint. (false, record s { open_ = true });
}

pub memory-IsStream : IsStream memory
memory-IsStream = record {
  live = λ s. s.open_;
  inbox = λ s. s.incoming;
  outbox = λ s. s.sent;
  read_enough = λ s n alive enough. ground arith;
  read_short = λ s n alive short. ground arith;
  write_all = λ s bytes alive. ground arith;
}

-- A connected socket that is about to receive `bytes`.
abbrev pub pipe : List ℕ → Pipe
pipe bytes = record { open_ = true; incoming = bytes; sent = [] }

pub pipe-Holds : (bytes : List ℕ) → Holds memory-IsStream (pipe bytes) bytes []
unfolding memory-IsStream
pipe-Holds bytes = record { alive = refl; incoming = refl; sent = refl }
