-- ===== src/Content/Store/Matching.antt =====
-- The pattern of a search against the meaning that PostgreSQL documents for `LIKE … ESCAPE '\'`: `%`
-- stands for any text, `_` for any one character, a backslash takes the next byte literally. `same`
-- compares two bytes, so that it may ignore case as `ILIKE` does.
use go_personal_web.Prelude.{
  ℕ, ◌≡◌, refl, sym, ap, ◌∙◌, Bool, true, false, ◌&&◌, ◌||◌, [], ◌∷◌, ◌++◌, Bytes, ◌==◌,
  if◌then◌else◌, arith, Bool-cases, inl, inr,
}
use go_personal_web.Content.Store.{escape_like, pattern_of}

-- Some rest of the text passes the test, the text itself and the empty rest included.
unfoldable pub any_rest : (Bytes → Bool) → Bytes → Bool
any_rest test [] = test []
any_rest test (c ∷ t) = test (c ∷ t) || any_rest test t

is_empty : Bytes → Bool
is_empty [] = true
is_empty (c ∷ t) = false

-- The byte at the front of the text passes the test and the rest matches.
first_and : (ℕ → Bool) → (Bytes → Bool) → Bytes → Bool
first_and one rest [] = false
first_and one rest (d ∷ t) = one d && rest t

module _ (same : ℕ → ℕ → Bool) where
  -- The meaning of a pattern.
  unfoldable pub like : Bytes → Bytes → Bool
  unfolding is_empty first_and
  like [] = is_empty
  like (c ∷ []) =
      if c == b'%'
      then any_rest is_empty
      else if c == b'_'
      then first_and (λ d. true) is_empty
      else first_and (same c) is_empty
  like (c ∷ e ∷ p) =
      let next = like (e ∷ p) in
      let after = like p in
      if c == b'%'
      then any_rest next
      else if c == b'_'
      then first_and (λ d. true) next
      else if c == b'\\'
      then first_and (same e) after
      else first_and (same c) next

  -- The text begins with the bytes of `s`.
  unfoldable pub begins : Bytes → Bytes → Bool
  unfolding first_and
  begins [] t = true
  begins (c ∷ s) t = first_and (same c) (begins s) t

  any_rest_empty : (t : Bytes) → any_rest is_empty t ≡ true
  unfolding any_rest is_empty
  any_rest_empty [] = refl
  any_rest_empty (c ∷ t) = any_rest_empty t

  any_rest_congr :
      (f g : Bytes → Bool) → ((t : Bytes) → f t ≡ g t) → (t : Bytes) → any_rest f t ≡ any_rest g t
  unfolding any_rest
  any_rest_congr f g h [] = h []
  any_rest_congr f g h (c ∷ t) = rw (h (c ∷ t), any_rest_congr f g h t)

  -- A literal byte of a pattern that goes on.
  like_literal :
      (c e : ℕ) (p t : Bytes)
      → (c == b'\\' || c == b'%' || c == b'_') ≡ false
      → like (c ∷ e ∷ p) t ≡ first_and (same c) (like (e ∷ p)) t
  unfolding like
  like_literal c e p t h =
      let percent : (c == b'%') ≡ false = ground arith in
      let underscore : (c == b'_') ≡ false = ground arith in
      let backslash : (c == b'\\') ≡ false = ground arith in rw (percent, underscore, backslash)

  like_escaped : (c : ℕ) (p t : Bytes) → like (b'\\' ∷ c ∷ p) t ≡ first_and (same c) (like p) t
  unfolding like
  like_escaped c p t = refl

  like_percent : (e : ℕ) (p t : Bytes) → like (b'%' ∷ e ∷ p) t ≡ any_rest (like (e ∷ p)) t
  unfolding like
  like_percent e p t = refl

  first_and_congr :
      (one : ℕ → Bool) (f g : Bytes → Bool) (t : Bytes)
      → ((u : Bytes) → f u ≡ g u)
      → first_and one f t ≡ first_and one g t
  unfolding first_and
  first_and_congr one f g [] h = refl
  first_and_congr one f g (d ∷ t) h = rw (h t)

  escape_like-cons : (s : Bytes) → (c : ℕ) × (r : Bytes) × (escape_like s ++ b'%' ∷ [] ≡ c ∷ r)
  unfolding escape_like
  escape_like-cons [] = (b'%', [], refl)
  escape_like-cons (c ∷ s) = elim (Bool-cases (c == b'\\' || c == b'%' || c == b'_')) [
    | inl e ↦ (b'\\', c ∷ (escape_like s ++ b'%' ∷ []), rw e)
    | inr e ↦ (c, escape_like s ++ b'%' ∷ [], rw e)
  ]

  like-escape_like : (s t : Bytes) → like (escape_like s ++ b'%' ∷ []) t ≡ begins s t
  unfolding escape_like begins
  like-escape_like [] t = unfold like in any_rest_empty t
  like-escape_like (c ∷ s) t = elim (Bool-cases (c == b'\\' || c == b'%' || c == b'_')) [
    | inl e ↦ rw e (
        like_escaped c (escape_like s ++ b'%' ∷ []) t
        ∙ first_and_congr (same c) _ _ t (like-escape_like s))
    | inr e ↦
        let (d, r, shape) = escape_like-cons s in
        rw (e, shape)
          (like_literal c d r t e
            ∙ first_and_congr (same c) _ _ t
                (λ u. ap (λ p. like p u) (sym shape) ∙ like-escape_like s u))
  ]

  -- A search matches exactly the texts that hold the words of the Author somewhere, byte for byte:
  -- a `%`, a `_` or a backslash in them stands for itself.
  pub like-pattern_of : (s t : Bytes) → like (pattern_of s) t ≡ any_rest (begins s) t
  unfolding pattern_of
  like-pattern_of s t =
      let (d, r, shape) = escape_like-cons s in
      rw shape (
        like_percent d r t
        ∙ any_rest_congr _ _ (λ u. ap (λ p. like p u) (sym shape) ∙ like-escape_like s u) t)
