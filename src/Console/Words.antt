-- ===== src/Console/Words.antt =====
-- The arguments that a line of words gives.
use chronoporia.Base.{
  ℕ, ◌≡◌, refl, sym, ap, ◌∙◌, inl, inr, Bool, true, false, Option, none, some, List, [], ◌∷◌, ◌++◌,
  arith, ◌==◌, All, Bool-cases, ==-refl, append_assoc, append-nil,
}
use chronoporia.Console.{is_quote, scan, split_input}

-- A word as it is typed: plain, or in quotes of one kind.
pub data Word : Type 0 where
  plain : ℕ → List ℕ → Word
  double : List ℕ → Word
  single : List ℕ → Word

abbrev pub text_of : Word → List ℕ
text_of (plain c w) = c ∷ w
text_of (double w) = w
text_of (single w) = w

-- The words with a space after each.
abbrev pub typed : List Word → List ℕ
typed [] = []
typed (plain c w ∷ words) = c ∷ (w ++ (32 ∷ typed words))
typed (double w ∷ words) = 34 ∷ (w ++ (34 ∷ (32 ∷ typed words)))
typed (single w ∷ words) = 39 ∷ (w ++ (39 ∷ (32 ∷ typed words)))

abbrev pub texts_of : List Word → List (List ℕ)
texts_of [] = []
texts_of (w ∷ words) = text_of w ∷ texts_of words

module _ (is_space : ℕ → Bool) where
  abbrev pub IsPlain : ℕ → Type 0
  IsPlain c = (is_quote c ≡ false) × (is_space c ≡ false)

  -- No quote and no space in a plain word; a quoted one lacks only its own quote.
  abbrev pub IsWord : Word → Type 0
  IsWord (plain c w) = IsPlain c × All IsPlain w
  IsWord (double w) = All (λ c. (c == 34) ≡ false) w
  IsWord (single w) = All (λ c. (c == 39) ≡ false) w

  scan-quoted :
      (q : ℕ) (w rest token : List ℕ) (args : List (List ℕ))
      → All (λ c. (c == q) ≡ false) w
      → scan is_space (w ++ (q ∷ rest)) token true (some q) args
        ≡ scan is_space rest (token ++ w) true none args
  unfolding scan
  scan-quoted q [] rest token args h = ground (arith, ==-refl q, append-nil token)
  scan-quoted q (c ∷ w) rest token args h =
      ground
        (arith, h.0, scan-quoted q w rest (token ++ c ∷ []) args h.1, append_assoc token (c ∷ []) w)

  scan-plain :
      (w rest token : List ℕ) (args : List (List ℕ))
      → All IsPlain w
      → scan is_space (w ++ rest) token true none args
        ≡ scan is_space rest (token ++ w) true none args
  unfolding scan
  scan-plain [] rest token args h =
      ap (λ t. scan is_space rest t true none args) (sym (append-nil token))
  scan-plain (c ∷ w) rest token args h = ground (
    arith,
    h.0.0,
    h.0.1,
    scan-plain w rest (token ++ c ∷ []) args h.1,
    append_assoc token (c ∷ []) w,
  )

  scan-space :
      (rest token : List ℕ) (args : List (List ℕ))
      → is_space 32 ≡ true
      → scan is_space (32 ∷ rest) token true none args
        ≡ scan is_space rest [] false none (args ++ token ∷ [])
  unfolding scan
  scan-space rest token args e = ground arith

  scan-typed :
      (words : List Word) (args : List (List ℕ))
      → is_space 32 ≡ true
      → All IsWord words
      → scan is_space (typed words) [] false none args ≡ args ++ texts_of words
  unfolding scan
  scan-typed [] args e h = sym (append-nil args)
  scan-typed (plain c w ∷ words) args e h = ground (
    arith,
    h.0.0.0,
    h.0.0.1,
    scan-plain w (32 ∷ typed words) (c ∷ []) args h.0.1,
    scan-space (typed words) (c ∷ w) args e,
    scan-typed words (args ++ (c ∷ w) ∷ []) e h.1,
    append_assoc args ((c ∷ w) ∷ []) (texts_of words),
  )
  scan-typed (double w ∷ words) args e h =
      scan-quoted 34 w (32 ∷ typed words) [] args h.0
      ∙ scan-space (typed words) w args e
      ∙ scan-typed words (args ++ w ∷ []) e h.1
      ∙ append_assoc args (w ∷ []) (texts_of words)
  scan-typed (single w ∷ words) args e h =
      scan-quoted 39 w (32 ∷ typed words) [] args h.0
      ∙ scan-space (typed words) w args e
      ∙ scan-typed words (args ++ w ∷ []) e h.1
      ∙ append_assoc args (w ∷ []) (texts_of words)

  -- Where a blank is a space, a line of words, each plain or in quotes of one kind and each followed
  -- by a blank, is split into the empty first argument and the words, without their quotes.
  pub split_input-typed :
      (words : List Word)
      → is_space 32 ≡ true
      → All IsWord words
      → split_input is_space (typed words) ≡ [] ∷ texts_of words
  unfolding split_input
  split_input-typed words e h = scan-typed words ([] ∷ []) e h

  abbrev HasFirst : List (List ℕ) → Type 0
  HasFirst args = (rest : List (List ℕ)) × (args ≡ [] ∷ rest)

  scan-HasFirst :
      (input token : List ℕ) (in_token : Bool) (quote_char : Option ℕ) (args : List (List ℕ))
      → HasFirst args
      → HasFirst (scan is_space input token in_token quote_char args)
  unfolding scan
  scan-HasFirst [] token true quote_char args (rest, e) =
      (rest ++ token ∷ [], ap (λ a. a ++ token ∷ []) e)
  scan-HasFirst [] token false quote_char args h = h
  scan-HasFirst (c ∷ input) token in_token (some q) args h = elim (Bool-cases (c == q)) [
    | inl e ↦ rw (e, scan) (scan-HasFirst input token in_token none args h)
    | inr e ↦ rw (e, scan) (scan-HasFirst input (token ++ c ∷ []) in_token (some q) args h)
  ]
  scan-HasFirst (c ∷ input) token in_token none args h = elim (Bool-cases (is_quote c)) [
    | inl e ↦ rw (e, scan) (scan-HasFirst input token true (some c) args h)
    | inr e ↦ elim (Bool-cases (is_space c)) [
      | inl s ↦
          rw (e, s, scan)
            (ended in_token
              (scan-HasFirst input [] false none (args ++ token ∷ [])
                (h.0 ++ token ∷ [], ap (λ a. a ++ token ∷ []) h.1))
              (scan-HasFirst input token false none args h))
      | inr s ↦ rw (e, s, scan) (scan-HasFirst input (token ++ c ∷ []) true none args h)
    ]
  ]
    where
      ended :
          (b : Bool)
          → HasFirst (scan is_space input [] false none (args ++ token ∷ []))
          → HasFirst (scan is_space input token false none args)
          → HasFirst (elim b as (λ _. List (List ℕ)) [
            | true ↦ scan is_space input [] false none (args ++ token ∷ [])
            | false ↦ scan is_space input token false none args
          ])
      ended true f g = f
      ended false f g = g

  -- The arguments of any line begin with an empty one, so they are never none at all: the console's
  -- test for no arguments does not succeed.
  pub split_input-first :
      (input : List ℕ) → (rest : List (List ℕ)) × (split_input is_space input ≡ [] ∷ rest)
  unfolding split_input
  split_input-first input = scan-HasFirst input [] false none ([] ∷ []) ([], refl)
