-- ===== src/Client/Text/Split.antt =====
-- `SplitString` of mbclient.cpp undoes joining words with the separator, and joining undoes it.
use mbtest.Prelude.{
  ℕ, ◌≡◌, refl, sym, ap, ◌∙◌, inl, inr, true, false, List, [], ◌∷◌, ◌++◌, ok, ◌>>=◌, ◌==◌, ==_refl,
  ==_iff, All, All-append, append-nil, append_assoc, Bool-cases,
}
use mbtest.Client.Text.{split_from, split_string}

-- A first word and further ones, joined by a separator.
unfoldable pub join : ℕ → List ℕ → List (List ℕ) → List ℕ
join c w [] = w
join c w (v ∷ words) = w ++ (c ∷ join c v words)

-- No byte of the word is the separator or 0.
abbrev pub IsWord : ℕ → List ℕ → Type 0
IsWord c = All (λ x. ((x == c) ≡ false) × ((x == 0) ≡ false))

module _ (c : ℕ) (separator : (c == 0) ≡ false) where
  split_from_here :
      (x : ℕ) (segment s : List ℕ)
      → (x == c) ≡ true
      → split_from c segment (x ∷ s) ≡ (split_from c [] s >>= λ words. ok (segment ∷ words))
  unfolding split_from
  split_from_here x segment s here = rw (here, split_from) refl

  split_from_other :
      (x : ℕ) (segment s : List ℕ)
      → (x == c) ≡ false
      → (x == 0) ≡ false
      → split_from c segment (x ∷ s) ≡ split_from c (segment ++ (x ∷ [])) s
  unfolding split_from
  split_from_other x segment s other nonzero = rw (other, nonzero, split_from) refl

  split_from-word :
      (w segment rest : List ℕ)
      → IsWord c w
      → split_from c segment (w ++ rest) ≡ split_from c (segment ++ w) rest
  split_from-word [] segment rest h = rw append-nil refl
  split_from-word (x ∷ w) segment rest ((other, nonzero), h) =
      split_from_other x segment (w ++ rest) other nonzero
      ∙ split_from-word w (segment ++ (x ∷ [])) rest h
      ∙ rw append_assoc refl

  split_from-join :
      (segment w : List ℕ) (words : List (List ℕ))
      → IsWord c w
      → All (IsWord c) words
      → split_from c segment (join c w words) ≡ ok ((segment ++ w) ∷ words)
  unfolding join split_from
  split_from-join segment w [] hw h =
      ap (λ t. split_from c segment t) (sym (append-nil w))
      ∙ (split_from-word w segment [] hw ∙ last)
    where
      last : split_from c (segment ++ w) [] ≡ ok ((segment ++ w) ∷ [])
      last = rw separator refl
  split_from-join segment w (v ∷ words) hw (hv, h) =
      split_from-word w segment (c ∷ join c v words) hw
      ∙ split_from_here c (segment ++ w) (join c v words) (==_refl c)
      ∙ rw (split_from-join [] v words hv h) refl

  -- Splitting the words that a separator other than 0 joins gives the words, if none holds it or
  -- a 0.
  pub split_string-join :
      (w : List ℕ) (words : List (List ℕ))
      → IsWord c w
      → All (IsWord c) words
      → split_string (join c w words) c ≡ ok (w ∷ words)
  unfolding split_string
  split_string-join w words hw h = split_from-join [] w words hw h

  split_from_words :
      (segment s : List ℕ)
      → IsWord c segment
      → All (λ x. (x == 0) ≡ false) s
      → (w : List ℕ) × (words : List (List ℕ)) × (split_from c segment s ≡ ok (w ∷ words))
        × (join c w words ≡ segment ++ s)
        × IsWord c w
        × All (IsWord c) words
  unfolding split_from join
  split_from_words segment [] hs h = (segment, [], rw separator refl, rw append-nil refl, hs, tt)
  split_from_words segment (x ∷ s) hs (hx, h) = elim (Bool-cases (x == c)) [
    | inl here ↦
        let (w, words, e, j, hw, hws) = split_from_words [] s tt h in
        (
          segment,
          w ∷ words,
          split_from_here x segment s here ∙ rw e refl,
          rw (j, (==_iff x c).0 here) refl,
          hs,
          (hw, hws),
        )
    | inr other ↦
        let (w, words, e, j, hw, hws) =
          split_from_words (segment ++ (x ∷ [])) s
            (All-append _ segment (x ∷ []) hs ((other, hx), tt)) h in
        (w, words, split_from_other x segment s other hx ∙ e, j ∙ rw append_assoc refl, hw, hws)
  ]

  -- With a separator other than 0 every string without a 0 is split, and into words: joined again
  -- they are the string, and none holds the separator. There is at least one word.
  pub split_string_words :
      (s : List ℕ)
      → All (λ x. (x == 0) ≡ false) s
      → (w : List ℕ) × (words : List (List ℕ)) × (split_string s c ≡ ok (w ∷ words))
        × (join c w words ≡ s)
        × IsWord c w
        × All (IsWord c) words
  unfolding split_string
  split_string_words s h = split_from_words [] s tt h
