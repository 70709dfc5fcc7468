-- ===== src/Helpers/ListMemory.antt =====
-- A memory for the tests of iox2_jsonrpc/iceoryx_helpers.py: a list of numbers.
use iox2_jsonrpc.Base.{ℕ, zero, suc, ◌<◌, ◌≡◌, ◌≢◌, refl, ap, List, [], ◌∷◌, length, arith}
use iox2_jsonrpc.Python.Outcome.{Outcome, returned, raised, error, ◌>>=◌}
use iox2_jsonrpc.Helpers.Bytes.{Memory}

abbrev pub get_at : List ℕ → ℕ → Outcome ℕ
get_at [] i = raised (error "IndexError" "")
get_at (x ∷ xs) zero = returned x
get_at (x ∷ xs) (suc i) = get_at xs i

abbrev pub set_at : List ℕ → ℕ → ℕ → Outcome (List ℕ)
set_at [] i v = raised (error "IndexError" "")
set_at (x ∷ xs) zero v = returned (v ∷ xs)
set_at (x ∷ xs) (suc i) v = let rest = set_at xs i v in rest >>= λ ys. returned (x ∷ ys)

pub set_at-returned :
    (b : List ℕ) (i v : ℕ)
    → i < length b
    → (b' : List ℕ) × (set_at b i v ≡ returned b')
      × (length b' ≡ length b)
      × (get_at b' i ≡ returned v)
      × ((j : ℕ) → j ≢ i → get_at b' j ≡ get_at b j)
set_at-returned [] i v lt = absurd (omega (arith, lt))
set_at-returned (x ∷ xs) zero v lt = (v ∷ xs, refl, refl, refl, other)
  where
    other : (j : ℕ) → j ≢ zero → get_at (v ∷ xs) j ≡ get_at (x ∷ xs) j
    other zero ne = absurd (ne refl)
    other (suc j) ne = refl
set_at-returned (x ∷ xs) (suc i) v lt =
    let (ys, e, l, here, others) = set_at-returned xs i v (omega (arith, lt)) in
    (x ∷ ys, rw e refl, ap suc l, here, other ys others)
  where
    other :
        (ys : List ℕ)
        → ((j : ℕ) → j ≢ i → get_at ys j ≡ get_at xs j)
        → (j : ℕ) → j ≢ suc i
        → get_at (x ∷ ys) j ≡ get_at (x ∷ xs) j
    other ys h zero ne = refl
    other ys h (suc j) ne = h j (λ e. ne (ap suc e))

abbrev pub list_memory : Memory (List ℕ)
list_memory = record {
  len = length;
  get_item = get_at;
  set_item = set_at;
  set_item-returned = set_at-returned;
}
