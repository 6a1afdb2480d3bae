-- ===== src/Driver/Words.antt =====
-- The 16-bit words of a register buffer and their bytes, big-endian, as both drivers convert them.
use opcua_plc_bridge.Base.{
  ℕ, ◌+◌, ◌*◌, ◌/◌, ◌%◌, ◌^◌, ◌<◌, ◌==◌, ==_iff, true, ◌≡◌, refl, List, [], ◌∷◌, length, All, arith,
}
use opcua_plc_bridge.Core.TagValue.{IsByte}
use opcua_plc_bridge.Core.WordOrder.{
  WordOrder, apply_to_bytes, apply_to_bytes_involutive, length-apply_to_bytes, All-apply_to_bytes,
}

abbrev pub IsWord : ℕ → Type 0
IsWord w = w < 2 ^ 16

-- `registers_to_bytes`: the high byte of each word, then the low one.
unfoldable pub registers_to_bytes : List ℕ → List ℕ
registers_to_bytes [] = []
registers_to_bytes (r ∷ rs) = r / 2 ^ 8 % 2 ^ 8 ∷ r % 2 ^ 8 ∷ registers_to_bytes rs

-- `while let Ok(w) = cur.read_u16::<BigEndian>() { words.push(w) }`: an odd last byte is dropped.
unfoldable pub read_words : List ℕ → List ℕ
read_words (hi ∷ lo ∷ rest) = (hi * 2 ^ 8 + lo) ∷ read_words rest
read_words _ = []

-- `if bytes.len() % 2 != 0 { bytes.push(0) }`
unfoldable pub pad_even : List ℕ → List ℕ
pad_even [] = []
pad_even (b ∷ []) = b ∷ 0 ∷ []
pad_even (a ∷ b ∷ rest) = a ∷ b ∷ pad_even rest

-- The words of a 32-bit and of a 64-bit number, the most significant first.
unfoldable pub u32_to_words : ℕ → List ℕ
u32_to_words v = v / 2 ^ 16 % 2 ^ 16 ∷ v % 2 ^ 16 ∷ []

unfoldable pub u64_to_words : ℕ → List ℕ
u64_to_words v = v / 2 ^ 48 % 2 ^ 16 ∷ v / 2 ^ 32 % 2 ^ 16 ∷ v / 2 ^ 16 % 2 ^ 16 ∷ v % 2 ^ 16 ∷ []

abbrev pub IsEven : {A : Type 0} → List A → Type 0
IsEven xs = length xs % 2 ≡ 0

pub registers_to_bytes-IsByte : (rs : List ℕ) → All IsByte (registers_to_bytes rs)
unfolding registers_to_bytes
registers_to_bytes-IsByte [] = tt
registers_to_bytes-IsByte (r ∷ rs) = (omega arith, (omega arith, registers_to_bytes-IsByte rs))

pub length-registers_to_bytes : (rs : List ℕ) → length (registers_to_bytes rs) ≡ 2 * length rs
unfolding registers_to_bytes
length-registers_to_bytes [] = refl
length-registers_to_bytes (r ∷ rs) = omega (arith, length-registers_to_bytes rs)

-- The words of a buffer of whole words have its bytes.
pub registers_to_bytes-read_words :
    (bytes : List ℕ)
    → All IsByte bytes
    → IsEven bytes
    → registers_to_bytes (read_words bytes) ≡ bytes
unfolding registers_to_bytes read_words
registers_to_bytes-read_words [] h e = refl
registers_to_bytes-read_words (a ∷ []) h e = absurd (omega arith)
registers_to_bytes-read_words (a ∷ b ∷ rest) h e =
    ground (arith, registers_to_bytes-read_words rest)

pub read_words-registers_to_bytes :
    (ws : List ℕ) → All IsWord ws → read_words (registers_to_bytes ws) ≡ ws
unfolding registers_to_bytes read_words
read_words-registers_to_bytes [] h = refl
read_words-registers_to_bytes (w ∷ ws) h = ground (arith, read_words-registers_to_bytes ws)

pub pad_even-IsEven : (bytes : List ℕ) → IsEven bytes → pad_even bytes ≡ bytes
unfolding pad_even
pad_even-IsEven [] e = refl
pad_even-IsEven (a ∷ []) e = absurd (omega arith)
pad_even-IsEven (a ∷ b ∷ rest) e = ground (arith, pad_even-IsEven rest)

-- The words that are sent for `words` under a word order: their bytes, reordered, as words again.
unfoldable pub ordered_words : WordOrder → List ℕ → List ℕ
ordered_words o words = read_words (apply_to_bytes o (registers_to_bytes words))

-- The test for an even number of bytes passes.
pub ordered-even :
    (o : WordOrder) (words : List ℕ)
    → (length (apply_to_bytes o (registers_to_bytes words)) % 2 == 0) ≡ true
ordered-even o words = (==_iff _ 0).1 (
    omega
      (arith, length-apply_to_bytes o (registers_to_bytes words), length-registers_to_bytes words))

-- A reader that applies the same order to what was sent has the bytes of the words.
pub ordered_words-read :
    (o : WordOrder) (words : List ℕ)
    → apply_to_bytes o (registers_to_bytes (ordered_words o words)) ≡ registers_to_bytes words
unfolding ordered_words
ordered_words-read o words =
    let bytes : List ℕ = registers_to_bytes words in
    rw
      (registers_to_bytes-read_words (apply_to_bytes o bytes)
        (All-apply_to_bytes IsByte o bytes (registers_to_bytes-IsByte words))
        (omega (arith, length-apply_to_bytes o bytes, length-registers_to_bytes words)))
      (apply_to_bytes_involutive o bytes)
