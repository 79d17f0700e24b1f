-- ===== src/Client/Commands/Entries/Texts.antt =====
-- The lines of a session of reads are lines that `main` of mbclient.cpp takes, and their words.
use mbtest.Prelude.{
  ℕ, suc, ap, ◌<◌, ◌≡◌, refl, false, List, [], ◌∷◌, arith, All, All-append, length, length-append,
  ◌==◌,
}
use mbtest.Client.Text.{codes}
use mbtest.Client.Text.Split.{join, IsWord}
use mbtest.Client.Text.Decimal.{decimal, decimal-IsWord, decimal-one_line}
use mbtest.Client.Commands.Lines.{Table, discretes, coils, inputs, holdings, name}
use mbtest.Client.Commands.Session.{IsCommand}
use mbtest.Client.Commands.Entries.{
  Entry, cell, table, unknown, short, first, others, line, lines, IsText, IsEntry,
}

abbrev IsOneLine : List ℕ → Type 0
IsOneLine = All (λ x. (x == 10) ≡ false)

join-IsOneLine :
    (w : List ℕ) (words : List (List ℕ))
    → IsOneLine w
    → All IsOneLine words
    → IsOneLine (join 32 w words)
unfolding join
join-IsOneLine w [] h hs = h
join-IsOneLine w (v ∷ words) h (hv, hs) =
    All-append _ w (32 ∷ join 32 v words) h (refl, join-IsOneLine v words hv hs)

name-IsText : (t : Table) → IsText (name t)
name-IsText discretes = ground arith
name-IsText coils = ground arith
name-IsText inputs = ground arith
name-IsText holdings = ground arith

decimal-IsText : (n : ℕ) → IsText (decimal n)
decimal-IsText n = (decimal-IsWord n, decimal-one_line n)

-- The words of a line.
pub words-IsText : (e : Entry) → IsEntry e → IsText (first e) × All IsText (others e)
words-IsText (cell t n) h = (ground arith, (name-IsText t, (decimal-IsText n, tt)))
words-IsText (table t) h = (ground arith, (name-IsText t, (ground arith, tt)))
words-IsText (unknown w words) (hw, hs, _, _) = (hw, hs)
words-IsText (short words) (hs, _) = (ground arith, hs)

All-IsOneLine : (words : List (List ℕ)) → All IsText words → All IsOneLine words
All-IsOneLine [] h = tt
All-IsOneLine (w ∷ words) ((_, hw), h) = (hw, All-IsOneLine words h)

pub All-IsWord : (words : List (List ℕ)) → All IsText words → All (IsWord 32) words
All-IsWord [] h = tt
All-IsWord (w ∷ words) ((hw, _), h) = (hw, All-IsWord words h)

join-some : (w : List ℕ) (words : List (List ℕ)) → 0 < length w → 0 < length (join 32 w words)
unfolding join
join-some w [] h = h
join-some w (v ∷ words) h = omega (arith, length-append w (32 ∷ join 32 v words))

line-some : (e : Entry) → IsEntry e → 0 < length (line e)
line-some (cell t n) h = join-some (codes "read") _ (omega arith)
line-some (table t) h = join-some (codes "read") _ (omega arith)
line-some (unknown w words) (_, _, _, some_) = some_
line-some (short words) h = join-some (codes "read") words (omega arith)

line-IsCommand : (e : Entry) → IsEntry e → IsCommand (line e)
line-IsCommand e h =
    let ((_, one), others_) = words-IsText e h in
    (line-some e h, join-IsOneLine (first e) (others e) one (All-IsOneLine (others e) others_))

pub lines-IsCommand : (es : List Entry) → All IsEntry es → All IsCommand (lines es)
lines-IsCommand [] h = tt
lines-IsCommand (e ∷ es) (he, h) = (line-IsCommand e he, lines-IsCommand es h)

pub length-lines : (es : List Entry) → length (lines es) ≡ length es
length-lines [] = refl
length-lines (e ∷ es) = ap suc (length-lines es)
