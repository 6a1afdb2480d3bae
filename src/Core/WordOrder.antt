-- ===== src/Core/WordOrder.antt =====
-- core-model/src/tag_value.rs: `WordOrder` and the in-place reordering of a byte buffer. The
-- index loops step over the buffer in chunks of two or four bytes, so each is a recursion on chunks.
use opcua_plc_bridge.Base.{◌≡◌, refl, List, [], ◌∷◌, length, All, arith}

pub data WordOrder : Type 0 where
  abcd badc cdab dcba : WordOrder

module _ {ℓ} {A : Type ℓ} where
  swap_bytes_in_words : List A → List A
  swap_bytes_in_words (a ∷ b ∷ rest) = b ∷ a ∷ swap_bytes_in_words rest
  swap_bytes_in_words rest = rest

  -- A trailing chunk of fewer than four bytes is left unchanged.
  swap_word_pairs_in_4byte_chunks : List A → List A
  swap_word_pairs_in_4byte_chunks (a ∷ b ∷ c ∷ d ∷ rest) =
      c ∷ d ∷ a ∷ b ∷ swap_word_pairs_in_4byte_chunks rest
  swap_word_pairs_in_4byte_chunks rest = rest

  -- Of a trailing chunk of two or three bytes the first two are swapped.
  reverse_bytes_in_4byte_chunks : List A → List A
  reverse_bytes_in_4byte_chunks (a ∷ b ∷ c ∷ d ∷ rest) =
      d ∷ c ∷ b ∷ a ∷ reverse_bytes_in_4byte_chunks rest
  reverse_bytes_in_4byte_chunks (a ∷ b ∷ rest) = b ∷ a ∷ rest
  reverse_bytes_in_4byte_chunks rest = rest

  unfoldable pub apply_to_bytes : WordOrder → List A → List A
  unfolding swap_bytes_in_words swap_word_pairs_in_4byte_chunks reverse_bytes_in_4byte_chunks
  apply_to_bytes abcd bytes = bytes
  apply_to_bytes badc bytes = swap_bytes_in_words bytes
  apply_to_bytes cdab bytes = swap_word_pairs_in_4byte_chunks bytes
  apply_to_bytes dcba bytes = reverse_bytes_in_4byte_chunks bytes

  -- Each reordering is its own inverse, on buffers of every length, odd ones included.
  pub apply_to_bytes_involutive :
      (o : WordOrder) (bytes : List A) → apply_to_bytes o (apply_to_bytes o bytes) ≡ bytes
  unfolding apply_to_bytes
  apply_to_bytes_involutive abcd bytes = refl
  apply_to_bytes_involutive badc [] = refl
  apply_to_bytes_involutive badc (a ∷ []) = refl
  apply_to_bytes_involutive badc (a ∷ b ∷ rest) = cc (apply_to_bytes_involutive badc rest)
  apply_to_bytes_involutive cdab (a ∷ b ∷ c ∷ d ∷ rest) = cc (apply_to_bytes_involutive cdab rest)
  apply_to_bytes_involutive cdab _ = refl
  apply_to_bytes_involutive dcba (a ∷ b ∷ c ∷ d ∷ rest) = cc (apply_to_bytes_involutive dcba rest)
  apply_to_bytes_involutive dcba _ = refl

  pub length-apply_to_bytes :
      (o : WordOrder) (bytes : List A) → length (apply_to_bytes o bytes) ≡ length bytes
  unfolding apply_to_bytes
  length-apply_to_bytes abcd bytes = refl
  length-apply_to_bytes badc (a ∷ b ∷ rest) = omega (arith, length-apply_to_bytes badc rest)
  length-apply_to_bytes badc _ = refl
  length-apply_to_bytes cdab (a ∷ b ∷ c ∷ d ∷ rest) = omega (arith, length-apply_to_bytes cdab rest)
  length-apply_to_bytes cdab _ = refl
  length-apply_to_bytes dcba (a ∷ b ∷ c ∷ d ∷ rest) = omega (arith, length-apply_to_bytes dcba rest)
  length-apply_to_bytes dcba _ = refl

  pub All-apply_to_bytes {κ} :
      (P : A → Type κ) (o : WordOrder) (bytes : List A)
      → All P bytes
      → All P (apply_to_bytes o bytes)
  unfolding apply_to_bytes
  All-apply_to_bytes P abcd bytes h = h
  All-apply_to_bytes P badc (a ∷ b ∷ rest) h = (h.1.0, (h.0, All-apply_to_bytes P badc rest h.1.1))
  All-apply_to_bytes P badc _ h = h
  All-apply_to_bytes P cdab (a ∷ b ∷ c ∷ d ∷ rest) h =
      (h.1.1.0, (h.1.1.1.0, (h.0, (h.1.0, All-apply_to_bytes P cdab rest h.1.1.1.1))))
  All-apply_to_bytes P cdab _ h = h
  All-apply_to_bytes P dcba (a ∷ b ∷ c ∷ d ∷ rest) h =
      (h.1.1.1.0, (h.1.1.0, (h.1.0, (h.0, All-apply_to_bytes P dcba rest h.1.1.1.1))))
  All-apply_to_bytes P dcba (a ∷ b ∷ rest) h = (h.1.0, (h.0, h.1.1))
  All-apply_to_bytes P dcba _ h = h
