-- ===== src/Map/Names.antt =====
-- std::map<std::string, ...>: its keys in the order of std::string, each once.
use device.Base.{
  ◌≡◌, refl, arith, subst, Bool, true, false, some, List, [], ◌∷◌, All, Bytes, beq, beq_iff, blt,
  inl, inr, Bool-cases, if◌then◌else◌,
}
use device.Map.{Map, bytes_key, lookup, insert, has}

-- The keys in their order.
unfoldable pub keys : {V : Type 0} → Map Bytes V → List Bytes
keys [] = []
keys ((n, v) ∷ m) = n ∷ keys m

-- The text is one of those.
unfoldable pub occurs : Bytes → List Bytes → Bool
occurs n [] = false
occurs n (k ∷ ks) = if beq k n then true else occurs n ks

unfoldable pub Before : Bytes → List Bytes → Type 0
Before n = All (λ k. blt n k ≡ true)

unfoldable pub IsSorted : List Bytes → Type 0
IsSorted [] = Unit
IsSorted (n ∷ ns) = Before n ns × IsSorted ns

blt_trans : (a b c : Bytes) → blt a b ≡ true → blt b c ≡ true → blt a c ≡ true
unfolding blt
blt_trans [] [] c h k = absurd (cc)
blt_trans [] (y ∷ b) [] h k = absurd (cc)
blt_trans [] (y ∷ b) (z ∷ c) h k = refl
blt_trans (x ∷ a) [] c h k = absurd (cc)
blt_trans (x ∷ a) (y ∷ b) [] h k = absurd (cc)
blt_trans (x ∷ a) (y ∷ b) (z ∷ c) h k = ground (arith, blt_trans a b c)

-- Of two texts that differ the one or the other comes first.
blt_total : (a b : Bytes) → beq a b ≡ false → blt b a ≡ false → blt a b ≡ true
unfolding blt beq
blt_total [] [] h k = absurd (cc)
blt_total [] (y ∷ b) h k = refl
blt_total (x ∷ a) [] h k = absurd (cc)
blt_total (x ∷ a) (y ∷ b) h k = ground (arith, blt_total a b)

blt_asym : (a b : Bytes) → blt a b ≡ true → blt b a ≡ false
unfolding blt
blt_asym [] [] h = refl
blt_asym [] (y ∷ b) h = refl
blt_asym (x ∷ a) [] h = absurd (cc)
blt_asym (x ∷ a) (y ∷ b) h = ground (arith, blt_asym a b)

lower-Before : (a b : Bytes) (ns : List Bytes) → blt a b ≡ true → Before b ns → Before a ns
unfolding Before
lower-Before a b [] h v = tt
lower-Before a b (n ∷ ns) h v = (blt_trans a b n h v.0, lower-Before a b ns h v.1)

module _ {V : Type 0} where
  -- What holds of the keys holds with one more.
  pub insert-All :
      (Q : Bytes → Type 0) (n : Bytes) (v : V) (m : Map Bytes V)
      → Q n
      → All Q (keys m)
      → All Q (keys (insert n v m))
  unfolding keys insert
  insert-All Q n v [] q a = (q, tt)
  insert-All Q n v ((j, w) ∷ m) q a = ground (arith, insert-All Q n v m q a.1)

  pub insert-IsSorted :
      (n : Bytes) (v : V) (m : Map Bytes V) → IsSorted (keys m) → IsSorted (keys (insert n v m))
  unfolding keys insert IsSorted
  insert-IsSorted n v [] s = (unfold Before in tt, tt)
  insert-IsSorted n v ((j, w) ∷ m) s = elim (Bool-cases (beq j n)) [
    | inl e ↦ rw e (subst (λ k. Before k (keys m)) ((beq_iff j n).0 e) s.0, s.1)
    | inr e ↦ elim (Bool-cases (blt n j)) [
      | inl l ↦
          rw (e, l) (unfold Before in (l, unfold Before in lower-Before n j (keys m) l s.0), s)
      | inr l ↦
          rw (e, l)
            (
              unfold Before in insert-All (λ k. blt j k ≡ true) n v m (blt_total j n e l) s.0,
              insert-IsSorted n v m s.1,
            )
    ]
  ]

  lookup-Before :
      (j n : Bytes) (v : V) (m : Map Bytes V)
      → Before j (keys m)
      → lookup n m ≡ some v
      → blt j n ≡ true
  unfolding keys lookup Before
  lookup-Before j n v [] a h = absurd (cc)
  lookup-Before j n v ((i, x) ∷ m) a h = ground (arith, beq_iff i n, lookup-Before j n v m a.1)

  -- A key that is there keeps its place.
  pub keys-insert :
      (n : Bytes) (v w : V) (m : Map Bytes V)
      → IsSorted (keys m)
      → lookup n m ≡ some v
      → keys (insert n w m) ≡ keys m
  unfolding keys insert lookup IsSorted
  keys-insert n v w [] s h = absurd (cc)
  keys-insert n v w ((j, x) ∷ m) s h =
      ground (arith, beq_iff j n, blt_asym n j, lookup-Before j n v m s.0, keys-insert n v w m s.1)

  -- The keys are those that the map has.
  pub has-keys : (n : Bytes) (m : Map Bytes V) → has n m ≡ occurs n (keys m)
  unfolding keys has occurs
  has-keys n [] = refl
  has-keys n ((j, x) ∷ m) = ground (arith, has-keys n m)
