-- ===== src/View/Markup/Rendering.antt =====
-- internal/view/*_templ.go: rendering up to the first error.
use go_personal_web.Prelude.{
  ℕ, suc, ◌+◌, ◌<◌, ◌≡◌, ◌⊎◌, refl, zero, Option, none, some, [], ◌∷◌, ◌++◌, Option-cases, inl, inr,
  arith, length, take, sym, ap, ◌∙◌,
}
use native.Mathlib.Nat.{add-zero}
use go_personal_web.View.Markup.{Write, Markup, Templ, written, print, render_from}

module _ {E : Type 0} (t : Templ) (failure : ℕ → Option E) where
  later : (i k : ℕ) → failure (suc i + k) ≡ failure (i + suc k)
  later i k = ap failure (omega arith)

  none_before :
      (i n : ℕ)
      → failure i ≡ none
      → ((k : ℕ) → k < n → failure (suc i + k) ≡ none)
      → (k : ℕ) → k < suc n
      → failure (i + k) ≡ none
  none_before i n first rest zero h = rw (add-zero) first
  none_before i n first rest (suc k) h = sym (later i k) ∙ rest k (omega arith)

  goes_on :
      (i : ℕ) (w : Write) (m : Markup)
      → failure i ≡ none
      → render_from t failure i (w ∷ m)
        ≡ (written t w ++ (render_from t failure (suc i) m).0, (render_from t failure (suc i) m).1)
  unfolding render_from
  goes_on i w m h = ground arith

  stops :
      (i : ℕ) (w : Write) (m : Markup) (e : E)
      → failure i ≡ some e
      → render_from t failure i (w ∷ m) ≡ ([], some e)
  unfolding render_from
  stops i w m e h = ground arith

  -- Rendering a markup either meets no failing step, returns no error and has written all of its bytes,
  -- or meets a first failing step: it returns the error of that step, behind exactly the bytes of the
  -- steps in front of it.
  pub render_from-first :
      (i : ℕ) (m : Markup)
      → ((render_from t failure i m ≡ (print t m, none))
          × ((k : ℕ) → k < length m → failure (i + k) ≡ none))
        ⊎ ((k : ℕ) × (e : E) × (k < length m)
            × (failure (i + k) ≡ some e)
            × ((j : ℕ) → j < k → failure (i + j) ≡ none)
            × (render_from t failure i m ≡ (print t (take k m), some e)))
  unfolding render_from print
  render_from-first i [] = inl (refl, λ k h. absurd (omega arith))
  render_from-first i (w ∷ m) = elim (Option-cases (failure i)) [
    | inr (e, failed) ↦
        inr (
          0,
          e,
          omega arith,
          rw add-zero failed,
          (λ j h. absurd (omega arith)),
          stops i w m e failed,
        )
    | inl fine ↦ elim (render_from-first (suc i) m) [
      | inl (all, none_failed) ↦
          inl (goes_on i w m fine ∙ rw (all) refl, none_before i (length m) fine none_failed)
      | inr (k, e, lt, failed, before, prefix) ↦ inr (
        suc k,
        e,
        omega arith,
        sym (later i k) ∙ failed,
        none_before i k fine before,
        goes_on i w m fine ∙ rw (prefix) refl,
      )
    ]
  ]
