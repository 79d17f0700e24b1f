-- ===== src/Wire/Laws.antt =====
-- What the byte-order calls put on the wire, and that two hosts of any byte orders understand it.
use mbtest.Prelude.{ℕ, ◌+◌, ◌*◌, ◌<◌, ◌≡◌, refl, List, [], ◌∷◌, length, arith}
use mbtest.Wire.{ByteOrder, little, big, store16, load16, ntohs, htons, store32, load32, ntohl}
use mbtest.Wire.{be16, be32, be16s}

pub store16-htons : (o : ByteOrder) (n : ℕ) → store16 o (htons o n) ≡ be16 n
unfolding store16 ntohs be16
store16-htons little n = ground arith
store16-htons big n = ground arith

pub store32-ntohl : (o : ByteOrder) (n : ℕ) → store32 o (ntohl o n) ≡ be32 n
unfolding store32 ntohl be32
store32-ntohl little n = ground arith
store32-ntohl big n = ground arith

-- Reading two bytes as a variable and calling `ntohs` gives the value sent.
pub ntohs-load16 :
    (o : ByteOrder) (a b : ℕ) → a < 256 → b < 256 → ntohs o (load16 o a b) ≡ a * 256 + b
unfolding load16 ntohs
ntohs-load16 little a b ha hb = omega arith
ntohs-load16 big a b ha hb = omega arith

pub ntohl-load32 :
    (o : ByteOrder) (a b c d : ℕ)
    → a < 256
    → b < 256
    → c < 256
    → d < 256
    → ntohl o (load32 o a b c d) ≡ a * 16777216 + b * 65536 + c * 256 + d
unfolding load32 ntohl
ntohl-load32 little a b c d ha hb hc hd = omega arith
ntohl-load32 big a b c d ha hb hc hd = omega arith

pub length-be16s : (ws : List ℕ) → length (be16s ws) ≡ length ws * 2
unfolding be16s
length-be16s [] = refl
length-be16s (w ∷ ws) = omega (arith, length-be16s ws)
