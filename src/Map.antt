-- ===== src/Map.antt =====
-- `std::map` and `std::set` as the program uses them: association lists that `insert` keeps in
-- the order of their keys.
pub mod Names
pub mod Sets
use device.Base.{
  ℕ, ◌≡◌, ◌↔◌, refl, Bool, true, false, Option, none, some, List, [], ◌∷◌, arith, Bytes, beq,
  beq_iff, blt, ltb, ◌==◌, ==_iff, if◌then◌else◌, length,
}

pub record Key (K : Type 0) : Type 0 where
  pub eqb : K → K → Bool
  pub eqb_iff : (a b : K) → (eqb a b ≡ true) ↔ (a ≡ b)
  pub less : K → K → Bool

instance abbrev pub number_key : Key ℕ
number_key = record { eqb = ◌==◌; eqb_iff = ==_iff; less = ltb }

instance abbrev pub bytes_key : Key Bytes
bytes_key = record { eqb = beq; eqb_iff = beq_iff; less = blt }

abbrev pub Map : Type 0 → Type 0 → Type 0
Map K V = List (K × V)

abbrev pub NumberSet : Type 0
NumberSet = Map ℕ (Unit {0})

pub eqb_refl : {K : Type 0} ⦃key : Key K⦄ (a : K) → key.eqb a a ≡ true
eqb_refl ⦃key⦄ a = (key.eqb_iff a a).1 refl

module _ {K V : Type 0} ⦃key : Key K⦄ where
  -- find, and operator[] on a key that is there
  unfoldable pub lookup : K → Map K V → Option V
  lookup k [] = none
  lookup k ((j, v) ∷ m) = if key.eqb j k then some v else lookup k m

  -- count(k) > 0
  unfoldable pub has : K → Map K V → Bool
  has k [] = false
  has k ((j, v) ∷ m) = if key.eqb j k then true else has k m

  -- m[k] = v
  unfoldable pub insert : K → V → Map K V → Map K V
  insert k v [] = (k, v) ∷ []
  insert k v ((j, w) ∷ m) =
      if key.eqb j k
      then (k, v) ∷ m
      else if key.less k j
      then (k, v) ∷ (j, w) ∷ m
      else (j, w) ∷ insert k v m

  unfoldable pub erase : K → Map K V → Map K V
  erase k [] = []
  erase k ((j, v) ∷ m) = let rest = erase k m in if key.eqb j k then rest else (j, v) ∷ rest

  pub has-lookup :
      (k : K) (m : Map K V) → has k m ≡ elim (lookup k m) [ none ↦ false | some _ ↦ true ]
  unfolding has lookup
  has-lookup k [] = refl
  has-lookup k ((j, v) ∷ m) = ground (arith, has-lookup k m)

  pub lookup-insert :
      (k j : K) (v : V) (m : Map K V)
      → lookup j (insert k v m) ≡ (if key.eqb k j then some v else lookup j m)
  unfolding lookup insert
  lookup-insert k j v [] = refl
  lookup-insert k j v ((i, w) ∷ m) =
      ground (arith, key.eqb_iff i k, key.eqb_iff i j, key.eqb_iff k j, lookup-insert k j v m)

  pub lookup-erase :
      (k j : K) (m : Map K V) → lookup j (erase k m) ≡ (if key.eqb k j then none else lookup j m)
  unfolding lookup erase
  lookup-erase k j [] = ground arith
  lookup-erase k j ((i, w) ∷ m) =
      ground (arith, key.eqb_iff i k, key.eqb_iff i j, key.eqb_iff k j, lookup-erase k j m)

  pub has-insert :
      (k j : K) (v : V) (m : Map K V)
      → has j (insert k v m) ≡ (if key.eqb k j then true else has j m)
  has-insert k j v m =
      ground (arith, has-lookup j m, has-lookup j (insert k v m), lookup-insert k j v m)

  pub has-erase :
      (k j : K) (m : Map K V) → has j (erase k m) ≡ (if key.eqb k j then false else has j m)
  has-erase k j m = ground (arith, has-lookup j m, has-lookup j (erase k m), lookup-erase k j m)

  -- A map of one entry that has `k` is that entry.
  pub has_only : (k : K) (m : Map K V) → has k m ≡ true → length m ≡ 1 → (v : V) × (m ≡ (k, v) ∷ [])
  unfolding has
  has_only k [] h e = cc
  has_only k ((j, v) ∷ []) h e = (v, ground (arith, key.eqb_iff j k))
  has_only k ((j, v) ∷ (i, w) ∷ m) h e = absurd (omega arith)
