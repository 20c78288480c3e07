-- ===== src/View/Reader/Escaping.antt =====
-- `html.EscapeString` as a browser reads it back: in the content as text, in a quoted attribute as
-- its value.
use go_personal_web.Prelude.{
  ℕ, ◌≡◌, refl, sym, ◌∙◌, ap, [], ◌∷◌, ◌++◌, Bytes, ◌=ᵇ◌, codes, append_assoc, append-nil, arith,
}
use go_personal_web.Http.{Pairs}
use go_personal_web.GoStd.Html.{escape_byte, escape_string}
use go_personal_web.View.Reader.{
  Mode, content, value, Token, step, emitted, after, tokens, characters,
}

pub after-append : (mode : Mode) (s u : Bytes) → after mode (s ++ u) ≡ after (after mode s) u
unfolding after
after-append mode [] u = refl
after-append mode (c ∷ s) u = after-append (step mode c) s u

pub tokens-append :
    (mode : Mode) (s u : Bytes) → tokens mode (s ++ u) ≡ tokens mode s ++ tokens (after mode s) u
unfolding tokens after
tokens-append mode [] u = refl
tokens-append mode (c ∷ s) u =
    ap (λ t. emitted mode c ++ t) (tokens-append (step mode c) s u)
    ∙ sym (append_assoc (emitted mode c) (tokens (step mode c) s) _)

byte_in_content :
    (c : ℕ)
    → (after content (escape_byte c) ≡ content)
      × (tokens content (escape_byte c) ≡ Token.character c ∷ [])
unfolding after tokens escape_byte codes ◌=ᵇ◌
byte_in_content c = ground arith

byte_in_value :
    (tag : Bytes) (a : Pairs) (k v : Bytes) (c : ℕ)
    → (after (value tag a k v) (escape_byte c) ≡ value tag a k (v ++ c ∷ []))
      × (tokens (value tag a k v) (escape_byte c) ≡ [])
unfolding after tokens escape_byte codes ◌=ᵇ◌
byte_in_value tag a k v c = ground arith

pub after-escape_content : (s : Bytes) → after content (escape_string s) ≡ content
unfolding escape_string
after-escape_content [] = unfold after in refl
after-escape_content (c ∷ s) =
    after-append content (escape_byte c) (escape_string s)
    ∙ rw ((byte_in_content c).0) (after-escape_content s)

pub tokens-escape_content : (s : Bytes) → tokens content (escape_string s) ≡ characters s
unfolding escape_string characters
tokens-escape_content [] = unfold tokens in refl
tokens-escape_content (c ∷ s) =
    tokens-append content (escape_byte c) (escape_string s)
    ∙ rw ((byte_in_content c).0, (byte_in_content c).1, tokens-escape_content s)

module _ (tag : Bytes) (a : Pairs) (k : Bytes) where
  pub after-escape_value :
      (v s : Bytes) → after (value tag a k v) (escape_string s) ≡ value tag a k (v ++ s)
  unfolding escape_string
  after-escape_value v [] = unfold after in rw append-nil
  after-escape_value v (c ∷ s) =
      after-append (value tag a k v) (escape_byte c) (escape_string s)
      ∙ rw ((byte_in_value tag a k v c).0)
          (after-escape_value (v ++ c ∷ []) s ∙ ap (value tag a k) (append_assoc v (c ∷ []) s))

  pub tokens-escape_value : (v s : Bytes) → tokens (value tag a k v) (escape_string s) ≡ []
  unfolding escape_string
  tokens-escape_value v [] = unfold tokens in refl
  tokens-escape_value v (c ∷ s) =
      tokens-append (value tag a k v) (escape_byte c) (escape_string s)
      ∙ rw ((byte_in_value tag a k v c).0, (byte_in_value tag a k v c).1)
          (tokens-escape_value (v ++ c ∷ []) s)
