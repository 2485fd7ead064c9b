-- ===== src/Tests/Presets.antt =====
-- server/drv_serial_*.h: the theorem on the presets, with a map as a list of entries.
use device.Base.{
  Bool, true, false, ◌&&◌, List, [], ◌∷◌, Bytes, text, beq, beq_iff, Option, none, some,
  Option-cases, Bool-cases, inl, inr, ◌≡◌, refl, subst, arith, Result, ok, err, if◌then◌else◌,
}
use device.Driver.Presets.{
  Value, string, number, listed, OptMap, serial_l300, preset, put_all, put_missing_all, add_opts,
}
use device.Driver.Presets.Laws.{last_of, add_opts-known}
use device.Driver.Setup.Open.{known_options}

abbrev Entries : Type 0
Entries = List (Bytes × Value)

get_entry : Bytes → Entries → Option Value
get_entry j [] = none
get_entry j ((k, v) ∷ l) = if beq k j then some v else get_entry j l

missing : Bytes → Value → Entries → Option Value → Entries
missing k v o none = (k, v) ∷ o
missing k v o (some u) = o

all_in : List Bytes → Entries → Bool
all_in names [] = true
all_in names ((k, v) ∷ l) = listed k names && all_in names l

refuse_unless : Bool → Result (Unit {0})
refuse_unless true = ok tt
refuse_unless false = err (text "unknown option")

get_missing :
    (j k : Bytes) (v : Value) (o : Entries)
    → get_entry j (missing k v o (get_entry k o)) ≡ elim (get_entry j o) as (λ _. Option Value) [
      | some u ↦ some u
      | none ↦ (if beq k j then some v else none)
    ]
unfolding get_entry missing
get_missing j k v o = elim (Option-cases (get_entry k o)) [
  | inr (u, e) ↦ elim (Option-cases (get_entry j o)) [
    | inr (x, f) ↦ rw (e, f) refl
    | inl f ↦ elim (Bool-cases (beq k j)) [
      | inl b ↦ absurd (clash (subst (λ i. get_entry i o ≡ some u) ((beq_iff k j).0 b) e) f)
      | inr b ↦ rw (e, f, b) refl
    ]
  ]
  | inl e ↦ elim (Bool-cases (beq k j)) [
    | inl b ↦
        let f : get_entry j o ≡ none = subst (λ i. get_entry i o ≡ none) ((beq_iff k j).0 b) e in
        rw (e, f, b) refl
    | inr b ↦ elim (Option-cases (get_entry j o)) [
      | inr (x, f) ↦ rw (e, f, b) refl
      | inl f ↦ rw (e, f, b) refl
    ]
  ]
]
  where
    clash : {u : Value} → get_entry j o ≡ some u → get_entry j o ≡ none → ⊥
    clash p q = cc

in_listed :
    (names : List Bytes) (o : Entries) (k : Bytes) (v : Value)
    → all_in names o ≡ true
    → get_entry k o ≡ some v
    → listed k names ≡ true
unfolding all_in get_entry
in_listed names [] k v h e = cc
in_listed names ((j, u) ∷ o) k v h e = elim (Bool-cases (beq j k)) [
  | inl b ↦ subst (λ i. listed i names ≡ true) ((beq_iff j k).0 b) (ground arith)
  | inr b ↦ in_listed names o k v (ground arith) (ground arith)
]

listed_in :
    (names : List Bytes) (o : Entries)
    → ((k : Bytes) (v : Value) → get_entry k o ≡ some v → listed k names ≡ true)
    → all_in names o ≡ true
unfolding all_in get_entry
listed_in names [] h = refl
listed_in names ((j, u) ∷ o) h =
    let first : listed j names ≡ true =
      h j u (let b : beq j j ≡ true = (beq_iff j j).1 refl in rw b refl) in
    rw first (
      listed_in names o (λ k v e. elim (Bool-cases (beq j k)) [
        | inl b ↦ subst (λ i. listed i names ≡ true) ((beq_iff j k).0 b) first
        | inr b ↦ h k v (rw b e)
      ]))

entry_map : OptMap Entries
unfolding missing
entry_map = record {
  get = get_entry;
  put = λ k v o. (k, v) ∷ o;
  put_missing = λ k v o. missing k v o (get_entry k o);
  check_unknown = λ names o. refuse_unless (all_in names o);
  get-put = λ j k v o. unfold get_entry in refl;
  get-put_missing = get_missing;
  check_unknown-listed =
      λ names o k v h e. in_listed names o k v (unfold refuse_unless in ground arith) e;
  check_unknown-ok = λ names o h. rw (listed_in names o h) (unfold refuse_unless in refl);
}

abbrev user : Entries
user = (text "dev", string (text "/dev/ttyUSB0")) ∷ (text "sfc", number 0) ∷ []

abbrev ready : Entries
ready =
    put_missing_all entry_map (preset serial_l300).defaults
      (put_all entry_map (preset serial_l300).fixed user)

user_accepted : add_opts entry_map (preset serial_l300) user ≡ ok ready
unfolding add_opts entry_map all_in refuse_unless listed text beq
user_accepted = refl

-- The flow control that the user asked for is not what the port gets.
add_opts-known_example :
    (entry_map.check_unknown known_options ready ≡ ok tt)
    × (entry_map.get (text "sfc") ready ≡ some (number 1))
unfolding last_of text beq
add_opts-known_example = add_opts-known entry_map serial_l300 user ready (text "sfc") user_accepted
