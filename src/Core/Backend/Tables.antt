-- ===== src/Core/Backend/Tables.antt =====
-- Maps whose entries stand under the path that they have themselves, each path once.
use symnav.Prelude.{
  ◌≡◌, refl, subst, All, if◌then◌else◌, Bool, true, false, Option, none, some, [], ◌∷◌, arith, Text,
  text_eq, text_eq_iff, every, is_some,
}
use symnav.Prelude.Map
use symnav.Prelude.Map.{Map, values, keys, get-set, get-delete}

-- `first ?? second`
abbrev pub or_else {ℓ} : {A : Type ℓ} → Option A → Option A → Option A
or_else none b = b
or_else (some a) b = some a

pub or_else-none {ℓ} : {A : Type ℓ} (a : Option A) → or_else a none ≡ a
or_else-none none = refl
or_else-none (some a) = refl

some-injective : {A : Type 0} {a b : A} → ◌≡◌ {A = Option A} (some a) (some b) → a ≡ b
some-injective h = cc

module _ {V : Type 0} (key : V → Text) where
  abbrev pub IsTable : Map V → Type 0
  IsTable [] = Unit
  IsTable ((k, v) ∷ m) = (key v ≡ k) × (Map.get k m ≡ none) × IsTable m

  pub set-IsTable : (v : V) (m : Map V) → IsTable m → IsTable (Map.set (key v) v m)
  unfolding Map.set Map.get
  set-IsTable v [] h = (refl, refl, tt)
  set-IsTable v ((j, w) ∷ m) h = ground (
    arith,
    text_eq_iff j (key v),
    text_eq_iff (key v) j,
    get-set (key v) j v m,
    set-IsTable v m h.2,
  )

  pub delete-IsTable : (k : Text) (m : Map V) → IsTable m → IsTable (Map.delete k m)
  unfolding Map.delete
  delete-IsTable k [] h = tt
  delete-IsTable k ((j, w) ∷ m) h = ground (arith, get-delete k j m, delete-IsTable k m h.2)

  pub get-key : (k : Text) (v : V) (m : Map V) → IsTable m → Map.get k m ≡ some v → key v ≡ k
  unfolding Map.get
  get-key k v [] h found = cc
  get-key k v ((j, w) ∷ m) h found = ground (arith, text_eq_iff j k, get-key k v m h.2)

module _ {V : Type 0} where
  pub has-keys :
      (p : Text → Bool) (path : Text) (m : Map V)
      → every p (keys m) ≡ true
      → is_some (Map.get path m) ≡ true
      → p path ≡ true
  unfolding Map.get
  has-keys p path [] h found = ground arith
  has-keys p path ((j, w) ∷ m) h found = ground (arith, text_eq_iff j path, has-keys p path m)

module _ {V : Type 0} (P : V → Type 0) where
  pub All-get : (k : Text) (v : V) (m : Map V) → All P (values m) → Map.get k m ≡ some v → P v
  unfolding Map.get
  All-get k v [] h found = cc
  All-get k v ((j, w) ∷ m) h found = at_key (text_eq j k) found (All-get k v m h.1)
    where
      at_key :
          (b : Bool)
          → (if b then some w else Map.get k m) ≡ some v
          → (Map.get k m ≡ some v → P v)
          → P v
      at_key true e later = subst P (some-injective e) h.0
      at_key false e later = later e

  pub All-set :
      (k : Text) (v : V) (m : Map V) → P v → All P (values m) → All P (values (Map.set k v m))
  unfolding Map.set
  All-set k v [] p h = (p, tt)
  All-set k v ((j, w) ∷ m) p h = ground (arith, All-set k v m p h.1)

  pub All-delete : (k : Text) (m : Map V) → All P (values m) → All P (values (Map.delete k m))
  unfolding Map.delete
  All-delete k [] h = tt
  All-delete k ((j, w) ∷ m) h = ground (arith, All-delete k m h.1)
