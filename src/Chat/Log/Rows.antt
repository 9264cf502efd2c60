-- ===== src/Chat/Log/Rows.antt =====
-- What the statements of a turn's transactions do to the table of messages.
use codex_server.Base.{
  ℕ, suc, ◌≡◌, refl, Bool, true, false, List, [], ◌∷◌, ◌++◌, if◌then◌else◌, filter, All, ◌≤◌, ◌<◌,
  arith,
}
use codex_server.Base.Text.{Text}
use codex_server.Codex.Events.{Attachment}
use codex_server.Chat.Log.{
  Message, Db, Tx, persist_attachments, persist_paths, unique_local_paths, is_in, Upload,
}

-- The rows of `messages` with the next id.
pub record Rows : Type 0 where
  pub messages : List Message
  pub next : ℕ

abbrev pub rows : Db → Rows
rows db = record { messages = db.messages; next = db.next_message }

rows-stored :
    (b : Bool) (x y : List ℕ × Db) (db : Db)
    → rows x.1 ≡ rows db
    → rows y.1 ≡ rows db
    → rows (if b then x else y).1 ≡ rows db
rows-stored true x y db p q = p
rows-stored false x y db p q = q

rows-persist_paths :
    (tx : Tx) (c u : ℕ) (paths : List Text) (ids : List ℕ) (db : Db)
    → rows (persist_paths tx c u paths ids db).1 ≡ rows db
unfolding persist_paths
rows-persist_paths tx c u [] ids db = refl
rows-persist_paths tx c u (p ∷ paths) ids db =
    let i = db.next_upload in
    let row : Upload = record { id = i; chat_id = c; user_id = u; path = p } in
    let more : Db = record db { uploads = db.uploads ++ row ∷ []; next_upload = suc i } in
    rows-stored (tx.stores p) (persist_paths tx c u paths (ids ++ i ∷ []) more)
      (persist_paths tx c u paths ids db) db (rows-persist_paths tx c u paths (ids ++ i ∷ []) more)
      (rows-persist_paths tx c u paths ids db)

pub rows-persist_attachments :
    (tx : Tx) (c u : ℕ) (files : List Attachment) (db : Db)
    → rows (persist_attachments tx c u files db).1 ≡ rows db
unfolding persist_attachments
rows-persist_attachments tx c u files db =
    rows-persist_paths tx c u (unique_local_paths tx [] files) [] db

-- Deleting by id.
abbrev pub HasIds : List ℕ → List Message → Type 0
HasIds ids = All (λ m. is_in ids m.id ≡ true)

pub is_in-append : (ids js : List ℕ) (i : ℕ) → is_in ids i ≡ true → is_in (ids ++ js) i ≡ true
is_in-append [] js i h = cc
is_in-append (j ∷ ids) js i h = ground (arith, is_in-append ids js i)

pub is_in-below :
    (n : ℕ) (ids : List ℕ) (i : ℕ) → All (λ j. n ≤ j) ids → i < n → is_in ids i ≡ false
is_in-below n [] i h b = refl
is_in-below n (j ∷ ids) i (h, hs) b = ground (arith, is_in-below n ids i hs b)

pub is_in-above : (n : ℕ) (ids : List ℕ) → All (λ j. j < n) ids → is_in ids n ≡ false
is_in-above n [] h = refl
is_in-above n (j ∷ ids) (h, hs) = ground (arith, is_in-above n ids hs)

pub filter-append :
    (p : Message → Bool) (xs ys : List Message) → filter p (xs ++ ys) ≡ filter p xs ++ filter p ys
filter-append p [] ys = refl
filter-append p (x ∷ xs) ys = ground (arith, filter-append p xs ys)

pub filter-All :
    (p : Message → Bool) (xs : List Message) → All (λ m. p m ≡ true) xs → filter p xs ≡ xs
filter-All p [] h = refl
filter-All p (x ∷ xs) (h, hs) = ground (arith, filter-All p xs hs)

pub filter-none :
    (p : Message → Bool) (xs : List Message) → All (λ m. p m ≡ false) xs → filter p xs ≡ []
filter-none p [] h = refl
filter-none p (x ∷ xs) (h, hs) = ground (arith, filter-none p xs hs)
