-- ===== src/Base/Text/Decimal.antt =====
-- Python's `str` of a non-negative integer and `int` of an ASCII text, and that the second undoes
-- the first. `int` skips white space at both ends, takes a sign, and allows one `_` between digits.
use Prim.Native.Nat.{ℕ, zero, suc, ◌+◌, ◌-◌, ◌*◌, ◌/◌, ◌%◌, ◌<◌}
use mathlib.Core.Path.{◌≡◌, refl, sym, ap, ◌∙◌}
use mathlib.Core.Logic.{inl, inr}
use mathlib.Core.Bool.{Bool, true, false, ◌&&◌, ◌||◌}
use mathlib.Core.List.{[], ◌∷◌, ◌++◌, append_assoc, append-nil}
use mathlib.Core.Option.{Option, none, some}
use mathlib.Core.Option
use native.Mathlib.Omega.{arith}
use codex_server.Base.Tests.{ltb, leb, ◌==◌, if◌then◌else◌, Bool-cases}
use codex_server.Base.Text.{Text}

-- `negsuc n` is -(n + 1).
pub data ℤ : Type 0 where
  pos : ℕ → ℤ
  negsuc : ℕ → ℤ

abbrev pub negate : ℕ → ℤ
negate zero = pos 0
negate (suc n) = negsuc n

digits : ℕ → ℕ → Text
digits zero n = []
digits (suc f) n =
    let front = digits f (n / 10) in
    if ltb n 10 then (b'0' + n) ∷ [] else front ++ (b'0' + n % 10) ∷ []

-- The fuel is one more than the number, which has fewer digits than that.
unfoldable pub str : ℕ → Text
unfolding digits
str n = digits (suc n) n

abbrev is_digit : ℕ → Bool
is_digit c = leb b'0' c && leb c b'9'

-- The characters that `str.isspace` accepts.
abbrev pub is_space : ℕ → Bool
is_space c =
    (c == 32 || leb 9 c && leb c 13 || leb 28 c && leb c 31 || c == 133 || c == 160)
    || (c == 5760
        || leb 8192 c && leb c 8202
        || c == 8232
        || c == 8233
        || c == 8239
        || c == 8287
        || c == 12288)

all_space : Text → Bool
all_space [] = true
all_space (c ∷ s) = is_space c && all_space s

-- The digits read so far, and whether the last character was a digit.
scan : ℕ → Bool → Text → Option ℕ
unfolding all_space
scan n after_digit [] = if after_digit then some n else none
scan n after_digit (c ∷ s) =
    let more = scan (n * 10 + (c - b'0')) true s in
    let skip = scan n false s in
    if is_digit c
    then more
    else if c == b'_' && after_digit
    then skip
    else if is_space c && after_digit && all_space s
    then some n
    else none

signed : Text → Option ℤ
unfolding scan
signed [] = none
signed (c ∷ s) =
    if c == b'-'
    then Option.map negate (scan 0 false s)
    else if c == b'+'
    then Option.map pos (scan 0 false s)
    else Option.map pos (scan 0 false (c ∷ s))

unfoldable pub int : Text → Option ℤ
unfolding signed
int [] = none
int (c ∷ s) = let rest = int s in if is_space c then rest else signed (c ∷ s)

scan-digits :
    (f n : ℕ) (after : Bool) (rest : Text)
    → n < f
    → scan 0 after (digits f n ++ rest) ≡ scan n true rest
unfolding scan digits
scan-digits zero n after rest h = absurd (omega arith)
scan-digits (suc f) n after rest h = elim (Bool-cases (ltb n 10)) [
  | inl small ↦ rw small (ground arith)
  | inr big ↦
      rw (big, append_assoc)
        (scan-digits f (n / 10) after ((b'0' + n % 10) ∷ rest) (ground arith) ∙ (ground arith))
]

-- The first character of `digits` is a digit, so that `int` neither strips it nor reads a sign.
digits_head :
    (f n : ℕ) (rest : Text)
    → n < f
    → (c : ℕ) × (s : Text) × (digits f n ++ rest ≡ c ∷ s) × (is_digit c ≡ true)
unfolding digits
digits_head zero n rest h = absurd (omega arith)
digits_head (suc f) n rest h = elim (Bool-cases (ltb n 10)) [
  | inl small ↦ (b'0' + n, rest, rw small refl, ground arith)
  | inr big ↦
      rw (big, append_assoc) (digits_head f (n / 10) ((b'0' + n % 10) ∷ rest) (ground arith))
]

int_of_digit :
    (s : Text) (c : ℕ) (t : Text)
    → s ≡ c ∷ t
    → is_digit c ≡ true
    → int s ≡ Option.map pos (scan 0 false s)
unfolding int
int_of_digit s c t e d = rw e (ground arith)

-- `int(str(n)) == n`.
pub int-str : (n : ℕ) → int (str n) ≡ some (pos n)
unfolding str scan
int-str n =
    let (c, s, e, d) = digits_head (suc n) n [] (omega arith) in
    int_of_digit (str n) c s (sym (append-nil _) ∙ e) d
    ∙ ap (Option.map pos) (
        ap (scan 0 false) (sym (append-nil (str n))) ∙ scan-digits (suc n) n false [] (omega arith))

pub str-injective : (m n : ℕ) → str m ≡ str n → m ≡ n
str-injective m n h = cc (ap int h, int-str m, int-str n)
