-- ===== src/Turns/Lease/Keys.antt =====
-- The lease keys: `turn_id_from_key` reads back what `lease_key` writes, and no other kind of key
-- is taken for a lease.
use codex_server.Base.{◌≡◌, refl, ap, ℕ, none, some}
use codex_server.Base.Text.{Text, strip_prefix, strip_prefix-append}
use codex_server.Base.Text.Decimal.{pos, str, int-str, str-injective}
use codex_server.Turns.Lease.{lease_key_prefix, lease_key, leader_key, turn_id_from_key}

strip-lease_key : (n : ℕ) → strip_prefix lease_key_prefix (lease_key n) ≡ some (str n)
unfolding lease_key
strip-lease_key n = strip_prefix-append lease_key_prefix (str n)

pub lease_key-injective : (m n : ℕ) → lease_key m ≡ lease_key n → m ≡ n
lease_key-injective m n e =
    str-injective m n
      (cc (ap (strip_prefix lease_key_prefix) e, strip-lease_key m, strip-lease_key n))

-- The id of a lease key is read back, and a leader key is not taken for a lease.
pub turn_id_from_key_lem :
    (n : ℕ) (name : Text)
    → (turn_id_from_key (lease_key n) ≡ some (pos n)) × (turn_id_from_key (leader_key name) ≡ none)
unfolding turn_id_from_key leader_key
turn_id_from_key_lem n name = (rw (strip-lease_key n, turn_id_from_key) (int-str n), refl)
