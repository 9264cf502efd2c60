-- ===== src/Codex/Translate/Reconcile.antt =====
-- The text of a completed agent message against the text streamed so far.
use codex_server.Base.{
  ◌≡◌, ◌≢◌, ◌⊎◌, refl, true, false, none, some, [], ◌∷◌, ◌++◌, ℕ, arith, inl, inr, Bool-cases,
  Option-cases,
}
use codex_server.Base.Text.{Text, strip_prefix, strip_prefix-append}
use codex_server.Codex.Events.{token_event}
use codex_server.Codex.Translate.{agent_message_to_token, ends_with, reverse}

strip_prefix-some : (s t rest : Text) → strip_prefix s t ≡ some rest → s ++ rest ≡ t
strip_prefix-some [] t rest h = cc
strip_prefix-some (c ∷ s) [] rest h = cc
strip_prefix-some (c ∷ s) (d ∷ t) rest h = ground (arith, strip_prefix-some s t rest)

strip_prefix_self : (s : Text) → strip_prefix s s ≡ some []
strip_prefix_self [] = refl
strip_prefix_self (c ∷ s) = ground (arith, strip_prefix_self s)

ends_with_self : (s : Text) → ends_with s s ≡ true
ends_with_self s = rw (strip_prefix_self (reverse s [])) refl

-- Against the streamed text, a completed message adds nothing, or exactly the missing end of it:
-- the streamed text is then the message, and the same message again adds nothing.
pub agent_message_to_token_lem :
    (text accumulated : Text)
    → (agent_message_to_token text accumulated ≡ none)
      ⊎ ((delta : Text) × (agent_message_to_token text accumulated ≡ some (token_event delta))
          × (accumulated ++ delta ≡ text)
          × (agent_message_to_token text (accumulated ++ delta) ≡ none))
unfolding agent_message_to_token
agent_message_to_token_lem [] acc = inl refl
agent_message_to_token_lem (c ∷ text) acc = elim (Bool-cases (ends_with acc (c ∷ text))) [
  | inl streamed ↦ inl (rw streamed refl)
  | inr open_end ↦ elim (Option-cases (strip_prefix acc (c ∷ text))) [
    | inl other ↦ inl (rw (open_end, other) refl)
    | inr (delta, e) ↦
        let whole : acc ++ delta ≡ c ∷ text = strip_prefix-some acc (c ∷ text) delta e in
        inr (delta, rw (open_end, e) refl, whole, rw (whole, ends_with_self (c ∷ text)) refl)
  ]
]

token-suffix :
    (text accumulated delta : Text)
    → text ≢ []
    → ends_with accumulated text ≡ false
    → strip_prefix accumulated text ≡ some delta
    → agent_message_to_token text accumulated ≡ some (token_event delta)
unfolding agent_message_to_token
token-suffix [] acc delta filled h e = absurd (filled refl)
token-suffix (c ∷ text) acc delta filled h e = rw (h, e) refl

append-filled : (s t : Text) (c : ℕ) → s ++ c ∷ t ≢ []
append-filled [] t c e = cc
append-filled (d ∷ s) t c e = cc

-- A message whose beginning has been streamed is completed by the missing end, unless the streamed
-- text ended with the message already.
pub agent_message-completes :
    (c : ℕ) (accumulated rest : Text)
    → ends_with accumulated (accumulated ++ c ∷ rest) ≡ false
    → agent_message_to_token (accumulated ++ c ∷ rest) accumulated ≡ some (token_event (c ∷ rest))
agent_message-completes c acc rest h =
    token-suffix (acc ++ c ∷ rest) acc (c ∷ rest) (append-filled acc rest c) h
      (strip_prefix-append acc (c ∷ rest))
