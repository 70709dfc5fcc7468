-- ===== src/Helpers/RoundTrip.antt =====
-- Bytes that are written to a slice of their length are read back (iox2_jsonrpc/iceoryx_helpers.py).
use iox2_jsonrpc.Base.{ℕ, ◌+◌, ◌<◌, ◌≤◌, ◌≡◌, refl, [], ◌∷◌, All, length, arith, ◌∙◌}
use iox2_jsonrpc.Python.Outcome.{returned}
use iox2_jsonrpc.Helpers.Bytes.{
  Memory, Bytes, read_from, slice_to_bytes, write_from, write_bytes_to_uninit_slice,
}

module _ {B : Type 0} (memory : Memory B) where
  open memory use {len, get_item, set_item, set_item-returned}

  -- From `i` on the memory holds these bytes.
  abbrev pub Holds : B → ℕ → Bytes → Type 0
  Holds b i [] = Unit
  Holds b i (x ∷ xs) = (get_item b i ≡ returned x) × Holds b (i + 1) xs

  -- What a write from `i` on leaves.
  pub record Written (b : B) (i : ℕ) (xs : Bytes) (b' : B) : Type 0 where
    pub same_len : len b' ≡ len b
    pub holds : Holds b' i xs
    pub frame : (j : ℕ) → j < i → get_item b' j ≡ get_item b j

  write_from-Written :
      (b : B) (i : ℕ) (xs : Bytes)
      → i + length xs ≤ len b
      → (b' : B) × (write_from memory b i xs ≡ returned b') × Written b i xs b'
  unfolding write_from
  write_from-Written b i [] h =
      (b, refl, record { same_len = refl; holds = tt; frame = λ j lt. refl })
  write_from-Written b i (x ∷ xs) h =
      let (b₁, wrote, same, here, others) = set_item-returned b i x (omega arith) in
      let (b₂, rest, w) = write_from-Written b₁ (i + 1) xs (omega arith) in
      (
        b₂,
        rw wrote rest,
        record {
          same_len = w.same_len ∙ same;
          holds = (w.frame i (omega arith) ∙ here, w.holds);
          frame = λ j lt. w.frame j (omega arith) ∙ others j (omega arith);
        },
      )

  read_from-Holds :
      (b : B) (i : ℕ) (xs : Bytes)
      → Holds b i xs
      → All (λ x. x < 256) xs
      → read_from memory b i (length xs) ≡ returned xs
  unfolding read_from
  read_from-Holds b i [] h k = refl
  read_from-Holds b i (x ∷ xs) h k = rw (h.0, read_from-Holds b (i + 1) xs h.1 k.1) (ground arith)

  -- Written to a slice of their own length, bytes are read back from it as they were.
  pub slice_to_bytes-write :
      {I : Type 0} (assume_init : B → I) (b : B) (xs : Bytes)
      → len b ≡ length xs
      → All (λ x. x < 256) xs
      → (b' : B) × (write_bytes_to_uninit_slice memory assume_init b xs ≡ returned (assume_init b'))
        × (slice_to_bytes memory b' ≡ returned xs)
  unfolding write_bytes_to_uninit_slice slice_to_bytes
  slice_to_bytes-write assume_init b xs e k =
      let (b', wrote, w) = write_from-Written b 0 xs (omega arith) in
      (b', rw wrote, rw (w.same_len, e) (read_from-Holds b' 0 xs w.holds k))
