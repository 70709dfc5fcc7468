-- ===== src/Helpers/Bytes.antt =====
-- `slice_to_bytes` and `write_bytes_to_uninit_slice` of iox2_jsonrpc/iceoryx_helpers.py, over shared
-- memory that iceoryx2 provides.
use iox2_jsonrpc.Base.{ℕ, zero, suc, ◌+◌, ◌<◌, ◌≡◌, ◌≢◌, List, [], ◌∷◌, ltb, if◌then◌else◌}
use iox2_jsonrpc.Python.Outcome.{Outcome, returned, raised, error, ◌>>=◌}

-- A slice of bytes, by what `len`, `[i]` and `[i] = v` do with it; the laws say that it is memory.
pub record Memory (B : Type 0) : Type 0 where
  pub len : B → ℕ
  pub get_item : B → ℕ → Outcome ℕ
  pub set_item : B → ℕ → ℕ → Outcome B
  pub set_item-returned :
      (b : B) (i v : ℕ)
      → i < len b
      → (b' : B) × (set_item b i v ≡ returned b')
        × (len b' ≡ len b)
        × (get_item b' i ≡ returned v)
        × ((j : ℕ) → j ≢ i → get_item b' j ≡ get_item b j)

abbrev pub Bytes : Type 0
Bytes = List ℕ

-- `bytes` refuses a number that is no byte, before it takes the next one.
abbrev pub checked_byte : ℕ → Outcome Bytes → Outcome Bytes
checked_byte item rest =
    if ltb item 256
    then (rest >>= λ items. returned (item ∷ items))
    else raised (error "ValueError" "bytes must be in range(0, 256)")

module _ {B : Type 0} (memory : Memory B) where
  open memory use {len, get_item, set_item}

  -- The items from `i` on, `n` of them.
  unfoldable pub read_from : B → ℕ → ℕ → Outcome Bytes
  read_from payload i zero = returned []
  read_from payload i (suc n) =
      let rest = read_from payload (i + 1) n in
      get_item payload i >>= λ item. checked_byte item rest

  unfoldable pub slice_to_bytes : B → Outcome Bytes
  slice_to_bytes payload = read_from payload 0 (len payload)

  -- The loop over `enumerate(payload)`, from `i` on.
  unfoldable pub write_from : B → ℕ → Bytes → Outcome B
  write_from dst i [] = returned dst
  write_from dst i (byte ∷ payload) = do dst' ← set_item dst i byte; write_from dst' (i + 1) payload

  -- `assume_init` turns the written memory into what can be sent.
  unfoldable pub write_bytes_to_uninit_slice : {I : Type 0} → (B → I) → B → Bytes → Outcome I
  write_bytes_to_uninit_slice assume_init uninit payload =
      write_from uninit 0 payload >>= λ dst. returned (assume_init dst)
