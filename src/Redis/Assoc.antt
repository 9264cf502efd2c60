-- ===== src/Redis/Assoc.antt =====
-- A store that meets the interface: a list of keys with their values, without times to live.
use codex_server.Base.{
  ◌≡◌, refl, Bool, true, false, not, ◌&&◌, Option, none, some, List, [], ◌∷◌, arith, is_some,
  if◌then◌else◌,
}
use codex_server.Base.Text.{Text, text_eq, text_eq_iff}
use codex_server.Redis.{Redis, holds, or_else}

abbrev Assoc : Type 0
Assoc = List (Text × Text)

abbrev lookup : Text → Assoc → Option Text
lookup k [] = none
lookup k ((j, v) ∷ m) = let rest = lookup k m in if text_eq j k then some v else rest

abbrev without : Text → Assoc → Assoc
without k [] = []
without k ((j, v) ∷ m) = let rest = without k m in if text_eq j k then rest else (j, v) ∷ rest

abbrev put : Text → Text → Assoc → Assoc
put k v m = (k, v) ∷ without k m

pub lookup-without :
    (k j : Text) (m : Assoc) → lookup j (without k m) ≡ (if text_eq k j then none else lookup j m)
lookup-without k j [] = ground arith
lookup-without k j ((i, v) ∷ m) =
    ground (arith, lookup-without k j m, text_eq_iff i k, text_eq_iff i j, text_eq_iff k j)

lookup-put :
    (k v : Text) (j : Text) (m : Assoc)
    → lookup j (put k v m) ≡ (if text_eq k j then some v else lookup j m)
lookup-put k v j m = ground (arith, lookup-without k j m)

lookup_at : (k j : Text) (m : Assoc) → text_eq k j ≡ true → lookup j m ≡ lookup k m
lookup_at k j m h = rw ((text_eq_iff k j).0 h)

abbrev set_nx : Text → Text → Assoc → Bool × Assoc
set_nx k v m = elim (lookup k m) [ none ↦ (true, put k v m) | some _ ↦ (false, m) ]

abbrev set_ifeq : Text → Text → Text → Assoc → Bool × Assoc
set_ifeq k v w m = if holds (lookup k m) w then (true, put k v m) else (false, m)

abbrev delex_ifeq : Text → Text → Assoc → Bool × Assoc
delex_ifeq k w m = if holds (lookup k m) w then (true, without k m) else (false, m)

pub reply-set_nx_lem : (k v : Text) (m : Assoc) → (set_nx k v m).0 ≡ not (is_some (lookup k m))
reply-set_nx_lem k v m = ground arith

pub get-set_nx_lem :
    (k v : Text) (m : Assoc) (j : Text)
    → lookup j (set_nx k v m).1 ≡ (if text_eq k j then or_else (lookup k m) v else lookup j m)
get-set_nx_lem k v m j = ground (arith, lookup-put k v j m, lookup_at k j m)

pub reply-set_ifeq_lem : (k v w : Text) (m : Assoc) → (set_ifeq k v w m).0 ≡ holds (lookup k m) w
reply-set_ifeq_lem k v w m = ground arith

pub get-set_ifeq_lem :
    (k v w : Text) (m : Assoc) (j : Text)
    → lookup j (set_ifeq k v w m).1
      ≡ (if text_eq k j && holds (lookup k m) w then some v else lookup j m)
get-set_ifeq_lem k v w m j = ground (arith, lookup-put k v j m)

pub reply-delex_ifeq_lem : (k w : Text) (m : Assoc) → (delex_ifeq k w m).0 ≡ holds (lookup k m) w
reply-delex_ifeq_lem k w m = ground arith

pub get-delex_ifeq_lem :
    (k w : Text) (m : Assoc) (j : Text)
    → lookup j (delex_ifeq k w m).1
      ≡ (if text_eq k j && holds (lookup k m) w then none else lookup j m)
get-delex_ifeq_lem k w m j = ground (arith, lookup-without k j m)

abbrev pub assoc : Redis
assoc = record {
  Store = Assoc;
  get = lookup;
  set_nx = λ k v ttl. set_nx k v;
  set_ifeq = λ k v ttl. set_ifeq k v;
  delex_ifeq = delex_ifeq;
  expire = λ k ttl m. (is_some (lookup k m), m);
  del = λ k m. (is_some (lookup k m), without k m);
  reply-set_nx = λ k v ttl. reply-set_nx_lem k v;
  get-set_nx = λ k v ttl. get-set_nx_lem k v;
  reply-set_ifeq = λ k v ttl. reply-set_ifeq_lem k v;
  get-set_ifeq = λ k v ttl. get-set_ifeq_lem k v;
  reply-delex_ifeq = reply-delex_ifeq_lem;
  get-delex_ifeq = get-delex_ifeq_lem;
  reply-expire = λ k ttl m. refl;
  get-expire = λ k ttl m j. refl;
  reply-del = λ k m. refl;
  get-del = λ k m j. lookup-without k j m;
}
