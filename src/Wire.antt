-- ===== src/Wire.antt =====
-- Integers in memory and the byte-order calls of <arpa/inet.h>, for a host of either byte order.
-- Every `uint16_t` and `uint32_t` of TcpConnection.cpp and mbclient.cpp goes to the socket and
-- comes from it as the memory of a variable, through `htons`, `ntohs` and `ntohl`.
pub mod Laws
use mbtest.Prelude.{ℕ, ◌+◌, ◌*◌, ◌/◌, ◌%◌, ◌≤◌, List, [], ◌∷◌, ◌++◌}

pub data ByteOrder : Type 0 where
  little big : ByteOrder

-- The bytes of a `uint16_t` variable, by address, and the value that two bytes have there.
unfoldable pub store16 : ByteOrder → ℕ → List ℕ
store16 little n = n % 256 ∷ n / 256 % 256 ∷ []
store16 big n = n / 256 % 256 ∷ n % 256 ∷ []

unfoldable pub load16 : ByteOrder → ℕ → ℕ → ℕ
load16 little a b = a + b * 256
load16 big a b = a * 256 + b

-- `htons` and `ntohs` are one function, and so are `htonl` and `ntohl`.
unfoldable pub ntohs : ByteOrder → ℕ → ℕ
ntohs little n = n % 256 * 256 + n / 256 % 256
ntohs big n = n % 65536

abbrev pub htons : ByteOrder → ℕ → ℕ
htons = ntohs

-- The bytes of a `uint32_t` variable.
unfoldable pub store32 : ByteOrder → ℕ → List ℕ
store32 little n = n % 256 ∷ n / 256 % 256 ∷ n / 65536 % 256 ∷ n / 16777216 % 256 ∷ []
store32 big n = n / 16777216 % 256 ∷ n / 65536 % 256 ∷ n / 256 % 256 ∷ n % 256 ∷ []

unfoldable pub load32 : ByteOrder → ℕ → ℕ → ℕ → ℕ → ℕ
load32 little a b c d = a + b * 256 + c * 65536 + d * 16777216
load32 big a b c d = a * 16777216 + b * 65536 + c * 256 + d

unfoldable pub ntohl : ByteOrder → ℕ → ℕ
ntohl little n =
    n % 256 * 16777216 + n / 256 % 256 * 65536 + n / 65536 % 256 * 256 + n / 16777216 % 256
ntohl big n = n % 4294967296

-- Network order, most significant byte first, whatever the host.
unfoldable pub be16 : ℕ → List ℕ
be16 n = n / 256 % 256 ∷ n % 256 ∷ []

unfoldable pub be32 : ℕ → List ℕ
be32 n = n / 16777216 % 256 ∷ n / 65536 % 256 ∷ n / 256 % 256 ∷ n % 256 ∷ []

-- A sequence of 16-bit words in network order.
unfoldable pub be16s : List ℕ → List ℕ
unfolding be16
be16s [] = []
be16s (w ∷ ws) = be16 w ++ be16s ws
