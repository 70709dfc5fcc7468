-- ===== src/Registry/Threads/Numbered.antt =====
-- The ids of the requests that threads send through one registry of iox2_jsonrpc/iceoryx_registry.py.
use iox2_jsonrpc.Base.{
  ℕ, ◌+◌, ◌≤◌, ◌≡◌, refl, sym, subst, Option, none, some, List, [], ◌∷◌, ◌++◌, All, All-at, All-map,
  All-replace, arith,
}
use iox2_jsonrpc.Python.Int.{pos}
use iox2_jsonrpc.Models.{JsonRpcId, JsonRpcRequest}
use iox2_jsonrpc.Registry.{call_request}
use iox2_jsonrpc.Registry.Ids.{Call}
use iox2_jsonrpc.Registry.Threads.{
  Place, calling, loaded, stored, requested, refused, tested, CallStep, load, store, number,
  CallRun, start, later, IsCalling,
}

-- The request has a number from `m + 1` to `n`.
abbrev pub IsBetween : ℕ → ℕ → JsonRpcRequest → Type 0
IsBetween m n request = (k : ℕ) × (request.id ≡ JsonRpcId.number (pos k)) × (m + 1 ≤ k) × (k ≤ n)

module _ {V K : Type 0} where
  abbrev pub stores_of : Place V K → ℕ
  stores_of (stored client c) = 1
  stores_of (requested client request timeout) = 1
  stores_of _ = 0

  -- The calls that have written the counter.
  abbrev pub stores : List (Place V K) → ℕ
  stores [] = 0
  stores (place ∷ places) = stores_of place + stores places

  abbrev pub IsNumbered : ℕ → ℕ → Place V K → Type 0
  IsNumbered m n (requested client request timeout) = IsBetween m n request
  IsNumbered m n _ = Unit

  -- What a thread knows of a counter that is `first` at the start, after `n` writes of it.
  abbrev Knows : ℕ → ℕ → ℕ → Place V K → Type 0
  Knows first n counter (loaded client k c) = (first ≤ k) × (k ≤ first + n)
  Knows first n counter (stored client c) = first + 1 ≤ counter
  Knows first n counter (requested client request timeout) = IsBetween first (first + n) request
  Knows first n counter _ = Unit

  Knows-mono :
      (first n n' counter after : ℕ) (place : Place V K)
      → n ≤ n'
      → (first + 1 ≤ counter → first + 1 ≤ after)
      → Knows first n counter place
      → Knows first n' after place
  Knows-mono first n n' counter after (calling c) le up h = tt
  Knows-mono first n n' counter after (loaded client k c) le up h = (h.0, omega (arith, le, h.1))
  Knows-mono first n n' counter after (stored client c) le up h = up h
  Knows-mono first n n' counter after (requested client request timeout) le up (k, e, lo, hi) =
      (k, e, lo, omega (arith, le, hi))
  Knows-mono first n n' counter after (refused e) le up h = tt

  -- A step that writes the counter `written` times.
  record Kept (first n counter after : ℕ) (place next : Place V K) : Type 0 where
    written : ℕ
    counted : written + stores_of place ≡ stores_of next
    lower : first ≤ after
    upper : after ≤ first + (n + written)
    up : first + 1 ≤ counter → first + 1 ≤ after
    knows : Knows first (n + written) after next

  tested-Kept :
      (first n counter : ℕ) (client : Option K) (c : Call V K)
      → first ≤ counter
      → counter ≤ first + n
      → Kept first n counter counter (calling c) (tested client counter c)
  unfolding tested
  tested-Kept first n counter none c lo hi = record {
    written = 0;
    counted = refl;
    lower = lo;
    upper = omega (arith, hi);
    up = λ h. h;
    knows = tt;
  }
  tested-Kept first n counter (some client) c lo hi = record {
    written = 0;
    counted = refl;
    lower = lo;
    upper = omega (arith, hi);
    up = λ h. h;
    knows = (lo, omega (arith, hi));
  }

  CallStep-Kept :
      (first n counter after : ℕ) (place next : Place V K)
      → first ≤ counter
      → counter ≤ first + n
      → Knows first n counter place
      → CallStep counter place after next
      → Kept first n counter after place next
  unfolding call_request
  CallStep-Kept first n counter _ _ _ lo hi h (load _ c) =
      tested-Kept first n counter c.0.rpc_client c lo hi
  CallStep-Kept first n counter _ _ _ lo hi h (store _ k client c) = record {
    written = 1;
    counted = refl;
    lower = omega (arith, h.0);
    upper = omega (arith, h.1);
    up = λ _. omega (arith, h.0);
    knows = omega (arith, h.0);
  }
  CallStep-Kept first n counter _ _ _ lo hi h (number _ client c) = record {
    written = 0;
    counted = refl;
    lower = lo;
    upper = omega (arith, hi);
    up = λ up. up;
    knows = (counter, refl, h, omega (arith, hi));
  }

  stores-replace :
      (before : List (Place V K)) (place next : Place V K) (rest : List (Place V K)) (n : ℕ)
      → n + stores_of place ≡ stores_of next
      → stores (before ++ (next ∷ rest)) ≡ stores (before ++ (place ∷ rest)) + n
  stores-replace [] place next rest n e = omega (arith, e)
  stores-replace (x ∷ before) place next rest n e =
      let h = stores-replace before place next rest n e in omega (arith, h)

  -- What holds in a run.
  abbrev Holds : ℕ → ℕ → ℕ → List (Place V K) → Type 0
  Holds first n counter places =
      (first ≤ counter) × (counter ≤ first + n) × All (Knows first n counter) places

  start-Knows :
      (first : ℕ) (calls : List (Place V K)) → All IsCalling calls → All (Knows first 0 first) calls
  start-Knows first [] h = tt
  start-Knows first (calling c ∷ calls) h = (tt, start-Knows first calls h.1)
  start-Knows first (loaded client k c ∷ calls) h = elim h.0 [ ]
  start-Knows first (stored client c ∷ calls) h = elim h.0 [ ]
  start-Knows first (requested client request timeout ∷ calls) h = elim h.0 [ ]
  start-Knows first (refused e ∷ calls) h = elim h.0 [ ]

  start-stores : (calls : List (Place V K)) → All IsCalling calls → stores calls ≡ 0
  start-stores [] h = refl
  start-stores (calling c ∷ calls) h =
      let none_yet = start-stores calls h.1 in omega (arith, none_yet)
  start-stores (loaded client k c ∷ calls) h = elim h.0 [ ]
  start-stores (stored client c ∷ calls) h = elim h.0 [ ]
  start-stores (requested client request timeout ∷ calls) h = elim h.0 [ ]
  start-stores (refused e ∷ calls) h = elim h.0 [ ]

  CallRun-Holds :
      {first counter : ℕ} {places : List (Place V K)}
      → CallRun first counter places
      → Holds first (stores places) counter places
  CallRun-Holds {first = first} (start calls h) =
      subst (λ n. Holds first n first calls) (sym (start-stores calls h))
        (omega arith, omega arith, start-Knows first calls h)
  CallRun-Holds {first = first} (later counter after before place next rest run move) =
      let n = stores (before ++ (place ∷ rest)) in
      let (lo, hi, knows) = CallRun-Holds run in
      let kept =
        CallStep-Kept first n counter after place next lo hi
          (All-at (Knows first n counter) before place rest knows) move in
      subst (λ m. Holds first m after (before ++ (next ∷ rest)))
        (sym (stores-replace before place next rest kept.written kept.counted))
        (
          kept.lower,
          kept.upper,
          All-replace
              (λ x. Knows-mono first n (n + kept.written) counter after x (omega arith) kept.up)
              before place next rest kept.knows knows,
        )

  Knows-IsNumbered :
      (first n counter : ℕ) (place : Place V K)
      → Knows first n counter place
      → IsNumbered first (first + n) place
  Knows-IsNumbered first n counter (calling c) h = tt
  Knows-IsNumbered first n counter (loaded client k c) h = tt
  Knows-IsNumbered first n counter (stored client c) h = tt
  Knows-IsNumbered first n counter (requested client request timeout) h = h
  Knows-IsNumbered first n counter (refused e) h = tt

  -- In whatever order the threads read and write the counter, each request has an id above the
  -- counter's first value and at most as many above it as there are calls that have written the counter.
  pub CallRun-IsNumbered :
      {first counter : ℕ} {places : List (Place V K)}
      → CallRun first counter places
      → All (IsNumbered first (first + stores places)) places
  CallRun-IsNumbered {first = first} {counter = counter} {places = places} run =
      All-map (Knows-IsNumbered first (stores places) counter) places (CallRun-Holds run).2
