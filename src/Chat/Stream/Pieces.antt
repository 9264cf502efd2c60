-- ===== src/Chat/Stream/Pieces.antt =====
-- Frames and events without the bounds between tokens, and what a call still owes its client.
use codex_server.Base.{ℕ, ◌+◌, ◌<◌, ◌≡◌, refl, sym, ap, ◌∙◌, List, [], ◌∷◌, ◌++◌, arith, ◌⊎◌, map}
use mathlib.Core.List.{append_assoc, append-nil}
use codex_server.Base.Text.{Text}
use codex_server.Codex.Events.{ChatEvent, done_event}
use codex_server.Codex.Collector.{StreamCollector, absorb, absorb_all, empty}
use codex_server.Chat.Frames.{
  Frame, token, tool_call, tool_result_frame, done, error, chat_event_to_pb,
}
use codex_server.Chat.Stream.{StreamState, Verdict, concat, flush, send, utf8_bytes}
use codex_server.Chat.Stream.Wire.{Wire, wire}

-- What is left of frames without the bounds between tokens: the characters of the tokens, and the
-- other frames whole.
pub data Piece : Type 0 where
  character : ℕ → Piece
  whole : Frame → Piece

abbrev pub pieces : Frame → List Piece
pieces (token delta) = map character delta
pieces (tool_call name args) = whole (tool_call name args) ∷ []
pieces (tool_result_frame name text files e) = whole (tool_result_frame name text files e) ∷ []
pieces (done chat_id text m) = whole (done chat_id text m) ∷ []
pieces (error code detail) = whole (error code detail) ∷ []

abbrev pub view : List Frame → List Piece
view [] = []
view (f ∷ fs) = pieces f ++ view fs

-- The reference: each event by itself as its frame, the final `done` left to the end of the call.
abbrev pub event_pieces : ChatEvent → List Piece
event_pieces (done_event text) = []
event_pieces e = pieces (chat_event_to_pb e)

abbrev pub reference : List ChatEvent → List Piece
reference [] = []
reference (e ∷ es) = event_pieces e ++ reference es

view-append : (fs gs : List Frame) → view (fs ++ gs) ≡ view fs ++ view gs
view-append [] gs = refl
view-append (f ∷ fs) gs = rw (view-append fs gs, append_assoc (pieces f) (view fs) (view gs))

reference-append : (es ds : List ChatEvent) → reference (es ++ ds) ≡ reference es ++ reference ds
reference-append [] ds = refl
reference-append (e ∷ es) ds =
    rw (reference-append es ds, append_assoc (event_pieces e) (reference es) (reference ds))

absorb_all-append :
    (es ds : List ChatEvent) (c : StreamCollector)
    → absorb_all (es ++ ds) c ≡ absorb_all ds (absorb_all es c)
unfolding absorb_all
absorb_all-append [] ds c = refl
absorb_all-append (e ∷ es) ds c = absorb_all-append es ds (absorb e c)

concat-append : (ts us : List Text) → concat (ts ++ us) ≡ concat ts ++ concat us
concat-append [] us = refl
concat-append (t ∷ ts) us = rw (concat-append ts us, append_assoc t (concat ts) (concat us))

utf8-append : (t u : Text) → utf8_bytes (t ++ u) ≡ utf8_bytes t + utf8_bytes u
utf8-append [] u = omega arith
utf8-append (c ∷ t) u = omega (arith, utf8-append t u)

-- The frames, with the waiting text and what is still owed of an event, are the events of the bus;
-- the collector has them all; the size is that of the waiting text.
abbrev pub Owes : List Piece → Wire → Type 0
Owes p w =
    (w.collector ≡ absorb_all w.bus empty)
    × ((view w.frames ++ map character (concat w.pending_text)) ++ p ≡ reference w.bus)
    × (w.pending_size ≡ utf8_bytes (concat w.pending_text))

abbrev pub IsShort : (coalesce_bytes : ℕ) → Wire → Type 0
IsShort n w = (w.pending_text ≡ []) ⊎ (w.pending_size < n)

abbrev pub Keeps : ℕ → Verdict × StreamState → Type 0
Keeps n r = Owes [] (wire r.1) × IsShort n (wire r.1)

pub flush-Owes :
    (p : List Piece) (ts : List Text) (s : StreamState)
    → s.pending_text ≡ ts
    → Owes p (wire s)
    → Owes p (wire (flush ts s)) × ((flush ts s).pending_text ≡ [])
flush-Owes p [] s e o = (o, e)
flush-Owes p (t ∷ ts) s e (c, o, z) =
    let text = concat (t ∷ ts) in
    let moved : (view (s.frames ++ token text ∷ []) ++ []) ++ p ≡ reference s.bus =
      ap (λ x. x ++ p)
        (append-nil (view (s.frames ++ token text ∷ []))
          ∙ (view-append s.frames (token text ∷ [])
              ∙ ap (λ x. view s.frames ++ x) (append-nil (map character text))))
      ∙ (ap (λ x. (view s.frames ++ map character (concat x)) ++ p) (sym e) ∙ o) in
    ((c, moved, refl), refl)

pub send-Owes :
    (f : Frame) (s : StreamState)
    → s.pending_text ≡ []
    → Owes (pieces f) (wire s)
    → Owes [] (wire (send f s))
send-Owes f s e (c, o, z) =
    let fs = s.frames in
    let sent : (view (fs ++ f ∷ []) ++ map character (concat s.pending_text)) ++ []
        ≡ reference s.bus =
      append-nil (view (fs ++ f ∷ []) ++ map character (concat s.pending_text))
      ∙ (ap (λ x. view (fs ++ f ∷ []) ++ map character (concat x)) e
          ∙ (append-nil (view (fs ++ f ∷ []))
              ∙ (view-append fs (f ∷ [])
                  ∙ (ap (λ x. view fs ++ x) (append-nil (pieces f))
                      ∙ (ap (λ x. x ++ pieces f) (sym (append-nil (view fs)))
                          ∙ (ap (λ x. (view fs ++ map character (concat x)) ++ pieces f) (sym e)
                              ∙ o)))))) in
    (c, sent, z)

pub publish-Owes :
    (e : ChatEvent) (s : StreamState)
    → Owes [] (wire s)
    → Owes
        (event_pieces e)
        (wire (record s { bus = s.bus ++ e ∷ []; collector = absorb e s.collector }))
unfolding absorb_all
publish-Owes e s (c, o, z) =
    let before = view s.frames ++ map character (concat s.pending_text) in
    (
      ap (absorb e) c ∙ sym (absorb_all-append s.bus (e ∷ []) empty),
      ap (λ x. x ++ event_pieces e) (sym (append-nil before) ∙ o)
          ∙ (ap (λ x. reference s.bus ++ x) (sym (append-nil (event_pieces e)))
              ∙ sym (reference-append s.bus (e ∷ []))),
      z,
    )

characters : (t u : Text) → map character (t ++ u) ≡ map character t ++ map character u
characters [] u = refl
characters (c ∷ t) u = ap (λ x. character c ∷ x) (characters t u)

pub wait-Owes :
    (delta : Text) (s : StreamState)
    → Owes (map character delta) (wire s)
    → Owes [] (
        wire (record s {
          pending_text = s.pending_text ++ delta ∷ [];
          pending_size = s.pending_size + utf8_bytes delta;
        }))
wait-Owes delta s (c, o, z) =
    let ts = s.pending_text in
    let grown : concat (ts ++ delta ∷ []) ≡ concat ts ++ delta =
      concat-append ts (delta ∷ []) ∙ ap (λ x. concat ts ++ x) (append-nil delta) in
    (
      c,
      append-nil (view s.frames ++ map character (concat (ts ++ delta ∷ [])))
          ∙ (ap (λ x. view s.frames ++ map character x) grown
              ∙ (ap (λ x. view s.frames ++ x) (characters (concat ts) delta)
                  ∙ (sym (
                        append_assoc (view s.frames) (map character (concat ts))
                          (map character delta))
                      ∙ o))),
      omega (arith, z, ap utf8_bytes grown, utf8-append (concat ts) delta),
    )
