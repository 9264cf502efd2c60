-- ===== src/Redis.antt =====
-- What the program relies on of Redis strings (`SET … NX EX`, `SET … IFEQ`, `DELEX … IFEQ`, `GET`,
-- `EXPIRE`, `DEL`), as an interface. A command is atomic; what a call sees of a failing connection
-- is in `Net`. The laws say what `GET` reads behind each command. A time to live is passed on and
-- not looked at; that a key runs out is a `DEL` by the environment.
pub mod Assoc
use codex_server.Base.{
  ◌≡◌, ℕ, Bool, true, not, Option, none, some, is_some, if◌then◌else◌, false, ◌&&◌,
}
use codex_server.Base.Text.{Text, text_eq}

-- A call returns, or raises `RedisError` before the command was sent, or after it was executed.
pub data Net : Type 0 where
  fine not_sent reply_lost : Net

-- A command that may have raised has been executed.
abbrev pub executed : Net → Bool
executed not_sent = false
executed _ = true

abbrev pub holds : Option Text → Text → Bool
holds none w = false
holds (some v) w = text_eq v w

abbrev pub or_else : Option Text → Text → Option Text
or_else none v = some v
or_else (some w) v = some w

pub record Redis : Type 1 where
  pub Store : Type 0
  pub get : Text → Store → Option Text
  pub set_nx : Text → Text → ℕ → Store → Bool × Store
  pub set_ifeq : Text → Text → ℕ → Text → Store → Bool × Store
  pub delex_ifeq : Text → Text → Store → Bool × Store
  pub expire : Text → ℕ → Store → Bool × Store
  pub del : Text → Store → Bool × Store
  pub reply-set_nx :
      (k v : Text) (ttl : ℕ) (s : Store) → (set_nx k v ttl s).0 ≡ not (is_some (get k s))
  pub get-set_nx :
      (k v : Text) (ttl : ℕ) (s : Store) (j : Text)
      → get j (set_nx k v ttl s).1 ≡ (if text_eq k j then or_else (get k s) v else get j s)
  pub reply-set_ifeq :
      (k v : Text) (ttl : ℕ) (w : Text) (s : Store) → (set_ifeq k v ttl w s).0 ≡ holds (get k s) w
  pub get-set_ifeq :
      (k v : Text) (ttl : ℕ) (w : Text) (s : Store) (j : Text)
      → get j (set_ifeq k v ttl w s).1
        ≡ (if text_eq k j && holds (get k s) w then some v else get j s)
  pub reply-delex_ifeq : (k w : Text) (s : Store) → (delex_ifeq k w s).0 ≡ holds (get k s) w
  pub get-delex_ifeq :
      (k w : Text) (s : Store) (j : Text)
      → get j (delex_ifeq k w s).1 ≡ (if text_eq k j && holds (get k s) w then none else get j s)
  pub reply-expire : (k : Text) (ttl : ℕ) (s : Store) → (expire k ttl s).0 ≡ is_some (get k s)
  pub get-expire : (k : Text) (ttl : ℕ) (s : Store) (j : Text) → get j (expire k ttl s).1 ≡ get j s
  pub reply-del : (k : Text) (s : Store) → (del k s).0 ≡ is_some (get k s)
  pub get-del :
      (k : Text) (s : Store) (j : Text)
      → get j (del k s).1 ≡ (if text_eq k j then none else get j s)
