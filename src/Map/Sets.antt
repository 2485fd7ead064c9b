-- ===== src/Map/Sets.antt =====
-- std::set<uint64_t>: its elements in ascending order, each once.
use device.Base.{
  ℕ, ◌<◌, ◌≡◌, ◌≢◌, arith, subst, ==_iff, true, [], ◌∷◌, ◌==◌, length, ltb, All, inl, inr,
  Bool-cases,
}
use device.Map.{NumberSet, number_key, has, insert, erase}

unfoldable pub Above : ℕ → NumberSet → Type 0
Above c us = All (λ e. c < e.0) us

unfoldable pub IsAscending : NumberSet → Type 0
unfolding Above
IsAscending [] = Unit
IsAscending ((c, u) ∷ us) = Above c us × IsAscending us

lower-Above : (b c : ℕ) (us : NumberSet) → b < c → Above c us → Above b us
unfolding Above
lower-Above b c [] h a = tt
lower-Above b c ((j, u) ∷ us) h a = (omega arith, lower-Above b c us h a.1)

insert-Above : (b c : ℕ) (us : NumberSet) → b < c → Above b us → Above b (insert c tt us)
unfolding Above insert
insert-Above b c [] h a = (h, tt)
insert-Above b c ((j, u) ∷ us) h a = ground (arith, insert-Above b c us h a.1)

erase-Above : (b c : ℕ) (us : NumberSet) → Above b us → Above b (erase c us)
unfolding Above erase
erase-Above b c [] a = tt
erase-Above b c ((j, u) ∷ us) a = ground (arith, erase-Above b c us a.1)

pub insert-IsAscending : (c : ℕ) (us : NumberSet) → IsAscending us → IsAscending (insert c tt us)
unfolding IsAscending insert
insert-IsAscending c [] v = (unfold Above in tt, tt)
insert-IsAscending c ((j, u) ∷ us) v = elim (Bool-cases (j == c)) [
  | inl e ↦ rw e (subst (λ k. Above k us) ((==_iff j c).0 e) v.0, v.1)
  | inr e ↦ elim (Bool-cases (ltb c j)) [
    | inl l ↦
        rw (e, l)
          (unfold Above in (ground arith, unfold Above in lower-Above c j us (ground arith) v.0), v)
    | inr l ↦ rw (e, l) (insert-Above j c us (ground arith) v.0, insert-IsAscending c us v.1)
  ]
]

pub erase-IsAscending : (c : ℕ) (us : NumberSet) → IsAscending us → IsAscending (erase c us)
unfolding IsAscending erase
erase-IsAscending c [] v = tt
erase-IsAscending c ((j, u) ∷ us) v = ground (arith, erase-IsAscending c us v.1, erase-Above j c us)

-- A set that has `c` and not only `c` has another element.
pub second_user :
    (us : NumberSet) (c : ℕ)
    → IsAscending us
    → has c us ≡ true
    → length us ≢ 1
    → (j : ℕ) × (c ≢ j) × (has j us ≡ true)
unfolding IsAscending Above has
second_user [] c v h n = cc
second_user (x ∷ []) c v h n = absurd (n (omega arith))
second_user ((i, x) ∷ (j, y) ∷ us) c v h n = elim (Bool-cases (i == c)) [
  | inl e ↦ (j, ground arith, ground arith)
  | inr e ↦ (i, ground arith, ground arith)
]
