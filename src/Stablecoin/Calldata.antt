-- ===== src/Stablecoin/Calldata.antt =====
-- The calldata of ERC-20 transfers against the ABI's layout.
use vaultkey.Prelude.{
  ℕ, zero, suc, ◌+◌, ◌-◌, ◌*◌, ◌/◌, ◌%◌, ◌^◌, ◌≤◌, ◌<◌, ◌≡◌, ◌⊎◌, subst, refl, ap, ap₂, ◌∙◌, sym,
  true, false, Bool-cases, some, inl, inr, [], ◌∷◌, ◌++◌, Bytes, codes, ltb, ◌==◌, length,
  length-append, length-replicate, replicate, take, All, append_assoc, arith, if◌then◌else◌,
}
use native.Mathlib.Nat.{pow-suc}
use vaultkey.Relayer.Outside.{hex_text, hex_char, trim_0x}
use vaultkey.Stablecoin.Abi.{bytes_from, amount_bytes, padded_amount, calldata, encode_transfer}

length-hex_text : (s : Bytes) → length (hex_text s) ≡ length s * 2
unfolding hex_text
length-hex_text [] = refl
length-hex_text (c ∷ s) = omega (arith, length-hex_text s)

length-padded_amount : (bs : Bytes) → length bs ≤ 32 → length (padded_amount bs) ≡ 64
unfolding padded_amount
length-padded_amount bs h =
    let total : length (padded_amount bs)
        ≡ length (replicate {A = ℕ} ((32 - length bs) * 2) b'0') + length (hex_text bs) =
      length-append (replicate {A = ℕ} ((32 - length bs) * 2) b'0') (hex_text bs) in
    let zeros : length (replicate {A = ℕ} ((32 - length bs) * 2) b'0') ≡ (32 - length bs) * 2 =
      length-replicate _ b'0' in
    let digits : length (hex_text bs) ≡ length bs * 2 = length-hex_text bs in
    total ∙ rw (zeros, digits) (omega arith)

-- What a lowercase hex digit stands for, and a hex text.
abbrev pub digit_value : ℕ → ℕ
digit_value c = if ltb c b'a' then c - b'0' else c - b'a' + 10

abbrev pub hex_value : ℕ → Bytes → ℕ
hex_value acc [] = acc
hex_value acc (c ∷ s) = hex_value (acc * 16 + digit_value c) s

abbrev pub drop : ℕ → Bytes → Bytes
drop zero s = s
drop (suc n) [] = []
drop (suc n) (c ∷ s) = drop n s

abbrev bytes_value : ℕ → Bytes → ℕ
bytes_value acc [] = acc
bytes_value acc (b ∷ bs) = bytes_value (acc * 256 + b) bs

digit_value-hex_char : (n : ℕ) → n < 16 → digit_value (hex_char n) ≡ n
unfolding hex_char
digit_value-hex_char n h = ground arith

abbrev IsByte : ℕ → Type 0
IsByte b = b < 256

hex_value-hex_text :
    (acc : ℕ) (bs : Bytes) → All IsByte bs → hex_value acc (hex_text bs) ≡ bytes_value acc bs
unfolding hex_text
hex_value-hex_text acc [] h = refl
hex_value-hex_text acc (b ∷ bs) (hb, hs) =
    let p = digit_value-hex_char (b / 16) (omega arith) in
    let q = digit_value-hex_char (b % 16) (omega arith) in
    let sum : (acc * 16 + digit_value (hex_char (b / 16))) * 16 + digit_value (hex_char (b % 16))
        ≡ acc * 256 + b =
      ap₂ (λ h l. (acc * 16 + h) * 16 + l) p q ∙ omega arith in
    ap (λ k. hex_value k (hex_text bs)) sum ∙ hex_value-hex_text (acc * 256 + b) bs hs

hex_value-zeros : (n : ℕ) (s : Bytes) → hex_value 0 (replicate n b'0' ++ s) ≡ hex_value 0 s
hex_value-zeros zero s = refl
hex_value-zeros (suc n) s = hex_value-zeros n s

bytes_value-bytes_from :
    (f n : ℕ) (out : Bytes) → n ≤ f → bytes_value 0 (bytes_from f n out) ≡ bytes_value n out
unfolding bytes_from
bytes_value-bytes_from zero n out h = let e : n ≡ 0 = omega arith in rw e refl
bytes_value-bytes_from (suc f) n out h = elim (Bool-cases (n == 0)) [
  | inl e ↦ let z : n ≡ 0 = ground arith in rw z refl
  | inr e ↦
      let back : n / 256 * 256 + n % 256 ≡ n = omega arith in
      rw (e, bytes_from)
        (bytes_value-bytes_from f (n / 256) ((n % 256) ∷ out) (ground arith)
          ∙ ap (λ k. bytes_value k out) back)
]

bytes_from-IsByte : (f n : ℕ) (out : Bytes) → All IsByte out → All IsByte (bytes_from f n out)
unfolding bytes_from
bytes_from-IsByte zero n out h = h
bytes_from-IsByte (suc f) n out h =
    let ih = bytes_from-IsByte f (n / 256) ((n % 256) ∷ out) (omega arith, h) in ground arith

take_append : (a b : Bytes) → take (length a) (a ++ b) ≡ a
take_append [] b = refl
take_append (c ∷ a) b = ap (λ s. c ∷ s) (take_append a b)

drop_append : (a b : Bytes) → drop (length a) (a ++ b) ≡ b
drop_append [] b = refl
drop_append (c ∷ a) b = drop_append a b

amount_value : (n : ℕ) → hex_value 0 (padded_amount (amount_bytes n)) ≡ n
unfolding padded_amount amount_bytes
amount_value n =
    hex_value-zeros ((32 - length (amount_bytes n)) * 2) (hex_text (amount_bytes n))
    ∙ hex_value-hex_text 0 (amount_bytes n) (bytes_from-IsByte n n [] tt)
    ∙ bytes_value-bytes_from n n [] (omega arith)

abbrev pub IsHexDigit : ℕ → Type 0
IsHexDigit c = ((b'0' ≤ c) × (c ≤ b'9')) ⊎ ((b'a' ≤ c) × (c ≤ b'f'))

hex_char-IsHexDigit : (n : ℕ) → n < 16 → IsHexDigit (hex_char n)
unfolding hex_char
hex_char-IsHexDigit n h = elim (Bool-cases (ltb n 10)) [
  | inl e ↦ rw e (inl (omega arith, ground arith))
  | inr e ↦ rw e (inr (omega arith, ground arith))
]

hex_text-IsHexDigit : (bs : Bytes) → All IsByte bs → All IsHexDigit (hex_text bs)
unfolding hex_text
hex_text-IsHexDigit [] h = tt
hex_text-IsHexDigit (b ∷ bs) (hb, hs) = (
  hex_char-IsHexDigit (b / 16) (omega arith),
  (hex_char-IsHexDigit (b % 16) (omega arith), hex_text-IsHexDigit bs hs),
)

zeros-IsHexDigit : (n : ℕ) (s : Bytes) → All IsHexDigit s → All IsHexDigit (replicate n b'0' ++ s)
zeros-IsHexDigit zero s h = h
zeros-IsHexDigit (suc n) s h = (inl (omega arith, omega arith), zeros-IsHexDigit n s h)

padded_amount-IsHexDigit : (n : ℕ) → All IsHexDigit (padded_amount (amount_bytes n))
unfolding padded_amount amount_bytes
padded_amount-IsHexDigit n =
    zeros-IsHexDigit ((32 - length (amount_bytes n)) * 2) _
      (hex_text-IsHexDigit (amount_bytes n) (bytes_from-IsByte n n [] tt))

-- The layout: 2 characters "0x", 8 of the selector, 24 zeros and 40 digits of the address, 64 hex
-- digits of the amount.
abbrev pub IsTransferCall : Bytes → Bytes → ℕ → Bytes → Type 0
IsTransferCall selector address amount text =
    (length text ≡ 138)
    × (take 10 text ≡ codes "0x" ++ hex_text selector)
    × (take 24 (drop 10 text) ≡ replicate 24 b'0')
    × (take 40 (drop 34 text) ≡ address)
    × All IsHexDigit (drop 74 text)
    × (hex_value 0 (drop 74 text) ≡ amount)

two_56_lt : (d n : ℕ) → n < 256 ^ suc d → n / 256 < 256 ^ d
two_56_lt d n h = let h' = rw (pow-suc 256 d) at h in omega arith

length-bytes_from :
    (f d n : ℕ) (out : Bytes) → n < 256 ^ d → length (bytes_from f n out) ≤ d + length out
unfolding bytes_from
length-bytes_from zero d n out h = omega arith
length-bytes_from (suc f) zero n out h = let e : n ≡ 0 = omega arith in rw e (omega arith)
length-bytes_from (suc f) (suc d) n out h =
    let ih = length-bytes_from f d (n / 256) ((n % 256) ∷ out) (two_56_lt d n h) in ground arith

take_at : (n : ℕ) (a b : Bytes) → length a ≡ n → take n (a ++ b) ≡ a
take_at n a b e = rw (← e) (take_append a b)

drop_at : (n : ℕ) (a b : Bytes) → length a ≡ n → drop n (a ++ b) ≡ b
drop_at n a b e = rw (← e) (drop_append a b)

-- Behind a first part of 10, one of 24 and one of 40 characters.
parts :
    (head zeros address amount : Bytes)
    → length head ≡ 10
    → length zeros ≡ 24
    → length address ≡ 40
    → let text = head ++ (zeros ++ (address ++ amount)) in
      (length text ≡ 74 + length amount)
      × (take 10 text ≡ head)
      × (take 24 (drop 10 text) ≡ zeros)
      × (take 40 (drop 34 text) ≡ address)
      × (drop 74 text ≡ amount)
parts head zeros address amount hh hz ha =
    let text = head ++ (zeros ++ (address ++ amount)) in
    let l1 : length text ≡ length head + length (zeros ++ (address ++ amount)) =
      length-append head _ in
    let l2 : length (zeros ++ (address ++ amount)) ≡ length zeros + length (address ++ amount) =
      length-append zeros _ in
    let l3 : length (address ++ amount) ≡ length address + length amount =
      length-append address amount in
    let front : length (head ++ zeros) ≡ length head + length zeros = length-append head zeros in
    let front3 : length ((head ++ zeros) ++ address) ≡ length (head ++ zeros) + length address =
      length-append (head ++ zeros) address in
    let two : text ≡ (head ++ zeros) ++ (address ++ amount) =
      sym (append_assoc head zeros (address ++ amount)) in
    let three : text ≡ ((head ++ zeros) ++ address) ++ amount =
      two ∙ sym (append_assoc (head ++ zeros) address amount) in
    (
      omega (arith, l1, l2, l3),
      take_at 10 head _ hh,
      ap (take 24) (drop_at 10 head (zeros ++ (address ++ amount)) hh) ∙ take_at 24 zeros _ hz,
      ap (λ t. take 40 (drop 34 t)) two
          ∙ ap (take 40) (drop_at 34 (head ++ zeros) (address ++ amount) (omega (arith, front)))
          ∙ take_at 40 address amount ha,
      ap (drop 74) three
          ∙ drop_at 74 ((head ++ zeros) ++ address) amount (omega (arith, front, front3)),
    )

length-amount_bytes : (n : ℕ) → n < 256 ^ 32 → length (amount_bytes n) ≤ 32
unfolding amount_bytes
length-amount_bytes n h =
    let l : length (bytes_from n n []) ≤ 32 + 0 = length-bytes_from n 32 n [] h in omega (arith, l)

calldata-IsTransferCall :
    (selector address : Bytes) (amount : ℕ)
    → length selector ≡ 4
    → length address ≡ 40
    → amount < 256 ^ 32
    → IsTransferCall selector address amount (calldata selector address (amount_bytes amount))
unfolding calldata
calldata-IsTransferCall selector address amount hs ha hb =
    let p = padded_amount (amount_bytes amount) in
    let hex : length (hex_text selector) ≡ length selector * 2 = length-hex_text selector in
    let (l, x, o, y, z) =
      parts (codes "0x" ++ hex_text selector) (replicate 24 b'0') address p (omega (arith, hex))
        refl ha in
    let tail : length p ≡ 64 =
      length-padded_amount (amount_bytes amount) (length-amount_bytes amount hb) in
    (
      l ∙ ap (λ n. 74 + n) tail,
      x,
      o,
      y,
      subst (All IsHexDigit) (sym z) (padded_amount-IsHexDigit amount),
      ap (hex_value 0) z ∙ amount_value amount,
    )

at_most_32 : (n : ℕ) → n ≤ 32 → ltb 32 n ≡ false
at_most_32 n h = ground arith

-- With Keccak's four bytes of selector, a recipient of 40 digits behind an optional 0x and a positive
-- amount below 2^256, EncodeERC20Transfer returns a text of 138 characters: 0x, the selector in hex,
-- 24 zeros, the address, and 64 hex digits that read as the amount.
pub encode_transfer-IsTransferCall :
    (to_lower : Bytes → Bytes) (selector to : Bytes) (amount : ℕ)
    → length selector ≡ 4
    → length (trim_0x (to_lower to)) ≡ 40
    → 0 < amount
    → amount < 256 ^ 32
    → (text : Bytes) × (encode_transfer to_lower selector to amount ≡ some text)
      × IsTransferCall selector (trim_0x (to_lower to)) amount text
unfolding encode_transfer
encode_transfer-IsTransferCall to_lower selector to amount hs ha hp hb =
    let some_amount : (amount == 0) ≡ false = ground arith in
    let right_length : (length (trim_0x (to_lower to)) == 40) ≡ true = ground arith in
    let short : ltb 32 (length (amount_bytes amount)) ≡ false =
      at_most_32 (length (amount_bytes amount)) (length-amount_bytes amount hb) in
    (
      calldata selector (trim_0x (to_lower to)) (amount_bytes amount),
      simp (some_amount, right_length, short) refl,
      calldata-IsTransferCall selector (trim_0x (to_lower to)) amount hs ha hb,
    )
