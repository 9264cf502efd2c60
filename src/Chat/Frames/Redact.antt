-- ===== src/Chat/Frames/Redact.antt =====
-- What `redact_for_user` lets through.
use codex_server.Base.{
  refl, ℕ, ◌≡◌, Bool, true, false, [], ◌∷◌, ◌++◌, arith, ◌==◌, is_some, all, not, List, Bool-cases,
  inl, map, inr,
}
use codex_server.Base.Text.{Text, strip_prefix, codes}
use codex_server.Chat.Frames.{
  contains, presigned_marker, join_words, redact_for_user, redact_word, split,
}

abbrev has_no_space : Text → Bool
has_no_space = all (λ c. not (c == 32))

-- A text that has no space does not begin behind a space.
strip_prefix-space :
    (p a b : Text)
    → has_no_space p ≡ true
    → is_some (strip_prefix p a) ≡ false
    → is_some (strip_prefix p (a ++ 32 ∷ b)) ≡ false
strip_prefix-space [] a b h e = e
strip_prefix-space (c ∷ p) [] b h e = ground arith
strip_prefix-space (c ∷ p) (d ∷ a) b h e = ground (arith, strip_prefix-space p a b)

contains-space :
    (c : ℕ) (p a b : Text)
    → has_no_space (c ∷ p) ≡ true
    → contains (c ∷ p) a ≡ false
    → contains (c ∷ p) b ≡ false
    → contains (c ∷ p) (a ++ 32 ∷ b) ≡ false
contains-space c p [] b h e f = ground arith
contains-space c p (d ∷ a) b h e f =
    ground (arith, contains-space c p a b, strip_prefix-space (c ∷ p) (d ∷ a) b)

marked-redact_word : (w : Text) → contains presigned_marker (redact_word w) ≡ false
marked-redact_word w = elim (Bool-cases (contains presigned_marker w)) [
  | inl e ↦ rw e refl
  | inr e ↦ rw (e, e)
]

marked-join_words :
    (words : List Text) → contains presigned_marker (join_words (map redact_word words)) ≡ false
unfolding join_words
marked-join_words [] = refl
marked-join_words (w ∷ []) = marked-redact_word w
marked-join_words (w ∷ (v ∷ words)) =
    contains-space 88 (codes "-Amz-Signature=") (redact_word w)
      (join_words (map redact_word (v ∷ words))) refl (marked-redact_word w)
      (marked-join_words (v ∷ words))

-- Whatever text it is given, `redact_for_user` returns one without the marker of the signature of a
-- presigned URL in it.
pub redact_for_user-hides : (text : Text) → contains presigned_marker (redact_for_user text) ≡ false
unfolding redact_for_user
redact_for_user-hides text = elim (Bool-cases (contains presigned_marker text)) [
  | inl e ↦ rw e (marked-join_words (split text))
  | inr e ↦ rw (e, e)
]
