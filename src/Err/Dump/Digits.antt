-- ===== src/Err/Dump/Digits.antt =====
-- `dump_address` of src/kernel/err/dump.cc against a reader of hexadecimal numbers.
use mathlib.Core.List.{append_assoc, append-nil}
use slayer_os.Base.{
  ℕ, zero, suc, ◌+◌, ◌-◌, ◌*◌, ◌/◌, ◌%◌, ◌^◌, ◌<◌, ◌≡◌, ◌≢◌, ◌∙◌, refl, sym, ap, arith, Option,
  none, some, List, [], ◌∷◌, ◌++◌, ◌&&◌, ◌==◌, leb, if◌then◌else◌, update, bit_and, ne→==, length,
  eq→==,
}
use native.Mathlib.Nat.{pow-suc}
use slayer_os.Base.Bits.{bit_and_low_bits}
use slayer_os.Base.Cells.{cells}
use slayer_os.Err.Dump.{digit, write_digits, until_null, dump_address}

-- The value of a hexadecimal digit with a capital letter.
abbrev pub hex_digit : ℕ → Option ℕ
hex_digit c =
    if leb b'0' c && leb c b'9'
    then some (c - b'0')
    else (if leb b'A' c && leb c b'F' then some (c - b'A' + 10) else none)

-- The value of a hexadecimal text behind the digits of `n`.
abbrev pub hex_value_from : ℕ → List ℕ → Option ℕ
hex_value_from n [] = some n
hex_value_from n (c ∷ cs) = elim (hex_digit c) [
  | none ↦ none
  | some d ↦ hex_value_from (n * 16 + d) cs
]

abbrev pub hex_value : List ℕ → Option ℕ
hex_value cs = hex_value_from 0 cs

-- The last `k` digits of a value.
abbrev pub digits_of : ℕ → ℕ → List ℕ
digits_of zero value = []
digits_of (suc k) value = digits_of k (value / 16) ++ (digit (value % 16) ∷ [])

cells_below : (f : ℕ → ℕ) (k v i n : ℕ) → k < i → cells (update f k v) i n ≡ cells f i n
cells_below f k v i zero h = refl
cells_below f k v i (suc n) h =
    rw (ne→== i k (λ e. omega arith))
      (ap (λ l. f i ∷ l) (cells_below f k v (i + 1) n (omega arith)))

low_nibble : (value : ℕ) → bit_and value 0xf ≡ value % 16
low_nibble value = bit_and_low_bits 4 value

-- The loop leaves the cells behind it alone and puts the digits in front of them.
cells-write_digits :
    (i n value : ℕ) (buf : ℕ → ℕ)
    → cells (write_digits i value buf) 0 (i + n) ≡ digits_of i value ++ cells buf i n
unfolding write_digits
cells-write_digits zero n value buf = ap (cells buf 0) (omega arith)
cells-write_digits (suc i) n value buf =
    let d = digit (bit_and value 0xf) in
    let first : cells (write_digits i (value / 16) (update buf i d)) 0 (suc i + n)
        ≡ digits_of i (value / 16) ++ cells (update buf i d) i (suc n) =
      ap (cells (write_digits i (value / 16) (update buf i d)) 0) (omega arith)
      ∙ cells-write_digits i (suc n) (value / 16) (update buf i d) in
    let head : (if i == i then d else buf i) ≡ digit (value % 16) =
      rw (eq→== i i refl) (ap digit (low_nibble value)) in
    let tail : cells (update buf i d) (i + 1) n ≡ cells buf (suc i) n =
      cells_below buf i d (i + 1) n (omega arith) ∙ ap (λ k. cells buf k n) (omega arith) in
    first
    ∙ ap (λ l. digits_of i (value / 16) ++ l) (λ j. head j ∷ tail j)
    ∙ sym (append_assoc (digits_of i (value / 16)) (digit (value % 16) ∷ []) (cells buf (suc i) n))

digit-ne-null : (d : ℕ) → digit d ≢ 0
unfolding digit
digit-ne-null d e = ground arith

until_null-digits_of :
    (k value : ℕ) (cs : List ℕ)
    → until_null (digits_of k value ++ cs) ≡ digits_of k value ++ until_null cs
unfolding until_null
until_null-digits_of zero value cs = refl
until_null-digits_of (suc k) value cs =
    let d = digit (value % 16) in
    let last : until_null (d ∷ cs) ≡ d ∷ until_null cs =
      rw (ne→== d 0 (digit-ne-null (value % 16))) refl in
    ap until_null (append_assoc (digits_of k (value / 16)) (d ∷ []) cs)
    ∙ until_null-digits_of k (value / 16) (d ∷ cs)
    ∙ ap (λ l. digits_of k (value / 16) ++ l) last
    ∙ sym (append_assoc (digits_of k (value / 16)) (d ∷ []) (until_null cs))

hex_digit-digit : (d : ℕ) → d < 16 → hex_digit (digit d) ≡ some d
unfolding digit
hex_digit-digit d h = ground arith

sixteen_times : (n k : ℕ) → n * 16 ^ suc k ≡ n * 16 ^ k * 16
sixteen_times n k = ap (λ t. n * t) (pow-suc 16 k) ∙ grind arith

-- The reader of the last digits of a value that has no more of them.
hex_value_from-digits_of :
    (k n value : ℕ) (cs : List ℕ)
    → value < 16 ^ k
    → hex_value_from n (digits_of k value ++ cs) ≡ hex_value_from (n * 16 ^ k + value) cs
hex_value_from-digits_of zero n value cs h = ap (λ v. hex_value_from v cs) (omega arith)
hex_value_from-digits_of (suc k) n value cs h =
    let d = digit (value % 16) in
    let less : value / 16 < 16 ^ k = omega (arith, pow-suc 16 k) in
    let front = hex_value_from-digits_of k n (value / 16) (d ∷ cs) less in
    let sum : (n * 16 ^ k + value / 16) * 16 + value % 16 ≡ n * 16 ^ suc k + value =
      omega (arith, sixteen_times n k) in
    ap (hex_value_from n) (append_assoc (digits_of k (value / 16)) (d ∷ []) cs)
    ∙ front
    ∙ rw (hex_digit-digit (value % 16) (omega arith), hex_value_from)
        (ap (λ v. hex_value_from v cs) sum)

dump_address-digits_of : (buf : ℕ → ℕ) (value : ℕ) → dump_address buf value ≡ digits_of 16 value
unfolding dump_address
dump_address-digits_of buf value =
    let out = digits_of 16 value in
    let null_cell : until_null (cells (update buf 16 0) 16 1) ≡ [] = refl in
    ap until_null (cells-write_digits 16 1 value (update buf 16 0))
    ∙ until_null-digits_of 16 value (cells (update buf 16 0) 16 1)
    ∙ ap (λ l. out ++ l) null_cell
    ∙ append-nil out

-- For every u64 value and whatever the stack holds, the text that `dump_address` prints has 16
-- characters, and a reader of hexadecimal numbers gets the value back.
pub hex_value-dump_address :
    (buf : ℕ → ℕ) (value : ℕ)
    → value < 2 ^ 64
    → (length (dump_address buf value) ≡ 16) × (hex_value (dump_address buf value) ≡ some value)
hex_value-dump_address buf value h =
    let text = dump_address-digits_of buf value in
    let read : hex_value (digits_of 16 value ++ []) ≡ some value =
      hex_value_from-digits_of 16 0 value [] h ∙ ap some (omega arith) in
    (
      ap length text,
      ap hex_value text ∙ ap hex_value (sym (append-nil (digits_of 16 value))) ∙ read,
    )
