-- ===== src/Map.antt =====
-- `HashMap` and `BTreeMap` of the standard library: an association list. Its order stands for the
-- order of iteration, about which nothing is assumed.
use toml.Prelude.{
  ◌≡◌, refl, Bool, false, ◌||◌, ap, Option, none, some, List, [], ◌∷◌, arith, Eq, ◌==◌, contains,
  if◌then◌else◌, unwrap_or, is_some, Distinct, find, Bool-cases, inl, inr,
}

abbrev pub Map {ℓ κ} : Type ℓ → Type κ → Type (ℓ ⊔ κ)
Map K V = List (K × V)

module _ {ℓ κ} {K : Type ℓ} {V : Type κ} where
  abbrev pub keys : Map K V → List K
  keys [] = []
  keys ((j, v) ∷ m) = j ∷ keys m

module _ {ℓ κ} {K : Type ℓ} {V : Type κ} ⦃e : Eq K⦄ where
  unfoldable pub get : Map K V → K → Option V
  get [] k = none
  get ((j, v) ∷ m) k = let rest = get m k in if j == k then some v else rest

  abbrev pub contains_key : Map K V → K → Bool
  contains_key m k = is_some (get m k)

  -- An entry that is there is replaced in its place, a new one comes last.
  unfoldable pub insert : K → V → Map K V → Map K V
  insert k v [] = (k, v) ∷ []
  insert k v ((j, w) ∷ m) = let rest = insert k v m in if j == k then (j, v) ∷ m else (j, w) ∷ rest

  unfoldable pub remove : K → Map K V → Map K V
  remove k [] = []
  remove k ((j, v) ∷ m) = let rest = remove k m in if j == k then rest else (j, v) ∷ rest

  -- `*m.entry(k).or_insert(d)` changed by `f`
  unfoldable pub update_or : K → V → (V → V) → Map K V → Map K V
  update_or k d f [] = (k, f d) ∷ []
  update_or k d f ((j, w) ∷ m) =
      let rest = update_or k d f m in if j == k then (j, f w) ∷ m else (j, w) ∷ rest

  pub get-insert :
      (k j : K) (v : V) (m : Map K V) → get (insert k v m) j ≡ (if k == j then some v else get m j)
  unfolding get insert
  get-insert k j v [] = refl
  get-insert k j v ((i, w) ∷ m) =
      ground (arith, e.eq_iff k j, e.eq_iff i k, e.eq_iff i j, get-insert k j v m)

  pub get-remove : (k j : K) (m : Map K V) → get (remove k m) j ≡ (if k == j then none else get m j)
  unfolding get remove
  get-remove k j [] = ground arith
  get-remove k j ((i, w) ∷ m) =
      ground (arith, e.eq_iff k j, e.eq_iff i k, e.eq_iff i j, get-remove k j m)

  pub get-update_or :
      (k j : K) (d : V) (f : V → V) (m : Map K V)
      → get (update_or k d f m) j ≡ (if k == j then some (f (unwrap_or (get m k) d)) else get m j)
  unfolding get update_or
  get-update_or k j d f [] = refl
  get-update_or k j d f ((i, w) ∷ m) =
      ground (arith, e.eq_iff k j, e.eq_iff i k, e.eq_iff i j, get-update_or k j d f m)

  pub contains-keys : (m : Map K V) (k : K) → contains (keys m) k ≡ contains_key m k
  unfolding get
  contains-keys [] k = refl
  contains-keys ((j, v) ∷ m) k = ground (arith, contains-keys m k)

  -- What is found by its key is what stands there, where no key stands twice.
  pub get-find :
      (p : K × V → Bool) (m : Map K V) (k : K) (v : V)
      → Distinct (keys m)
      → find p m ≡ some (k, v)
      → get m k ≡ some v
  unfolding get
  get-find p [] k v d h = cc
  get-find p ((j, w) ∷ m) k v d h = elim (Bool-cases (p (j, w))) [
    | inl p_holds ↦ ground (arith, p_holds, e.eq_iff j k)
    | inr fails ↦
        ground (arith, get-find p m k v d.1 (rw fails at h), contains-keys m k, e.eq_iff j k)
  ]

  pub keys-update_or_mem :
      (k j : K) (d : V) (f : V → V) (m : Map K V)
      → contains (keys (update_or k d f m)) j ≡ (k == j || contains (keys m) j)
  unfolding update_or
  keys-update_or_mem k j d f [] = refl
  keys-update_or_mem k j d f ((i, w) ∷ m) =
      ground (arith, e.eq_iff i k, e.eq_iff k j, e.eq_iff i j, keys-update_or_mem k j d f m)

  pub Distinct-update_or :
      (k : K) (d : V) (f : V → V) (m : Map K V)
      → Distinct (keys m)
      → Distinct (keys (update_or k d f m))
  unfolding update_or
  Distinct-update_or k d f [] h = (refl, tt)
  Distinct-update_or k d f ((i, w) ∷ m) h = elim (Bool-cases (i == k)) [
    | inl same ↦ rw same h
    | inr other ↦ rw other (
      ground (arith, keys-update_or_mem k i d f m, e.eq_iff i k, e.eq_iff k i),
      Distinct-update_or k d f m h.1,
    )
  ]

  pub get-find-none :
      (p : K × V → Bool) (m : Map K V) (k : K) (v : V)
      → find p m ≡ none
      → get m k ≡ some v
      → p (k, v) ≡ false
  unfolding get
  get-find-none p [] k v h g = cc
  get-find-none p ((j, w) ∷ m) k v h g = elim (Bool-cases (j == k)) [
    | inl same ↦
        let here = (e.eq_iff j k).0 same in
        let eq : ◌≡◌ {A = K × V} (j, w) (k, v) = ground (arith, here) in ground (arith, ap p eq)
    | inr other ↦ ground (arith, get-find-none p m k v (ground arith) (rw other at g))
  ]

  pub Distinct-insert :
      (k : K) (v : V) (m : Map K V) → Distinct (keys m) → Distinct (keys (insert k v m))
  unfolding insert
  Distinct-insert k v [] h = (refl, tt)
  Distinct-insert k v ((i, w) ∷ m) h = elim (Bool-cases (i == k)) [
    | inl same ↦ rw same h
    | inr other ↦ rw other (
      ground (
        arith,
        contains-keys (insert k v m) i,
        contains-keys m i,
        get-insert k i v m,
        e.eq_iff i k,
        e.eq_iff k i,
      ),
      Distinct-insert k v m h.1,
    )
  ]

  pub Distinct-remove : (k : K) (m : Map K V) → Distinct (keys m) → Distinct (keys (remove k m))
  unfolding remove
  Distinct-remove k [] h = tt
  Distinct-remove k ((i, w) ∷ m) h = elim (Bool-cases (i == k)) [
    | inl same ↦ rw same (Distinct-remove k m h.1)
    | inr other ↦ rw other (
      ground (arith, contains-keys (remove k m) i, contains-keys m i, get-remove k i m, h.0),
      Distinct-remove k m h.1,
    )
  ]
