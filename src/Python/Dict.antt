-- ===== src/Python/Dict.antt =====
-- Python's `dict` with string keys: an association list in insertion order.
use iox2_jsonrpc.Base.{
  String, ◌≡◌, refl, subst, inl, inr, Option, none, some, Bool, false, List, [], ◌∷◌, ◌++◌, All,
  arith, ◌==◌, eq_iff, ==-sym, Bool-cases, is_none, not, if◌then◌else◌,
}

abbrev pub Dict {ℓ} : Type ℓ → Type ℓ
Dict V = List (String × V)

module _ {ℓ} {V : Type ℓ} where
  -- `d.get(k)`
  unfoldable pub get : String → Dict V → Option V
  get k [] = none
  get k ((j, v) ∷ d) = let rest = get k d in if j == k then some v else rest

  -- `d[k] = v`: a new key goes to the end, a known one keeps its place.
  unfoldable pub put : String → V → Dict V → Dict V
  put k v [] = (k, v) ∷ []
  put k v ((j, w) ∷ d) = let rest = put k v d in if j == k then (k, v) ∷ d else (j, w) ∷ rest

  -- `d | e`
  unfoldable pub union : Dict V → Dict V → Dict V
  unfolding put
  union d [] = d
  union d ((k, v) ∷ e) = union (put k v d) e

  pub get-put :
      (k j : String) (v : V) (d : Dict V) → get j (put k v d) ≡ (if k == j then some v else get j d)
  unfolding get put
  get-put k j v [] = refl
  get-put k j v ((i, w) ∷ d) = ground (arith, eq_iff k j, eq_iff i k, eq_iff i j, get-put k j v d)

-- `k in d`
abbrev pub contains {ℓ} : {V : Type ℓ} → String → Dict V → Bool
contains k d = not (is_none (get k d))

-- No entry has this key.
abbrev pub IsNew {ℓ} : {V : Type ℓ} → String → Dict V → Type 0
IsNew k d = All (λ p. (p.0 == k) ≡ false) d

-- No key stands twice, as in every Python `dict`.
abbrev pub IsDict {ℓ} : {V : Type ℓ} → Dict V → Type 0
IsDict [] = Unit
IsDict ((k, v) ∷ d) = IsNew k d × IsDict d

module _ {ℓ} {V : Type ℓ} where
  pub put-new : (k : String) (v : V) (d : Dict V) → IsNew k d → put k v d ≡ d ++ (k, v) ∷ []
  unfolding put
  put-new k v [] h = refl
  put-new k v ((j, w) ∷ d) h = rw (h.0, put-new k v d h.1)

  pub IsNew-put :
      (k j : String) (v : V) (d : Dict V) → (k == j) ≡ false → IsNew j d → IsNew j (put k v d)
  unfolding put
  IsNew-put k j v [] e h = (e, tt)
  IsNew-put k j v ((i, w) ∷ d) e h = ground (arith, IsNew-put k j v d e h.1)

  pub put-IsDict : (k : String) (v : V) (d : Dict V) → IsDict d → IsDict (put k v d)
  unfolding put
  put-IsDict k v [] h = (tt, tt)
  put-IsDict k v ((j, w) ∷ d) h = elim (Bool-cases (j == k)) [
    | inl e ↦ rw e (subst (λ i. IsNew i d) ((eq_iff j k).0 e) h.0, h.1)
    | inr e ↦ rw e (IsNew-put k j v d (==-sym j k e) h.0, put-IsDict k v d h.1)
  ]

  pub IsNew-append :
      (j k : String) (v : V) (d : Dict V)
      → (k == j) ≡ false
      → IsNew j d
      → IsNew j (d ++ (k, v) ∷ [])
  IsNew-append j k v [] e h = (e, tt)
  IsNew-append j k v (p ∷ d) e h = (h.0, IsNew-append j k v d e h.1)

  -- No key of `e` stands in `d`.
  abbrev pub Apart : Dict V → Dict V → Type 0
  Apart d e = All (λ p. IsNew p.0 d) e

  pub Apart-append :
      (d e : Dict V) (k : String) (v : V) → Apart d e → IsNew k e → Apart (d ++ (k, v) ∷ []) e
  Apart-append d [] k v h n = tt
  Apart-append d ((j, w) ∷ e) k v h n =
      (IsNew-append j k v d (==-sym j k n.0) h.0, Apart-append d e k v h.1 n.1)

  pub Apart-nil : (e : Dict V) → Apart [] e
  Apart-nil [] = tt
  Apart-nil (p ∷ e) = (tt, Apart-nil e)
