-- ===== src/Driver/Presets/Laws.antt =====
-- add_opts of server/drv_serial_*.h: which value each option has for Driver_serial.
use device.Base.{
  Bool, true, false, ◌&&◌, List, [], ◌∷◌, Bytes, text, beq, beq_iff, Option, none, some,
  Option-cases, Bool-cases, inl, inr, ◌≡◌, subst, refl, sym, ap, ◌∙◌, arith, ok, if◌then◌else◌,
}
use device.Driver.Presets.{
  Value, listed, OptMap, Preset, PresetKind, preset, put_all, put_missing_all, add_opts,
  serial_asm340,
}
use device.Driver.Setup.Open.{known_options}

abbrev pub or_else : Option Value → Option Value → Option Value
or_else (some v) o = some v
or_else none o = o

-- The last entry of the list for the name, and the first.
unfoldable pub last_of : Bytes → List (Bytes × Value) → Option Value
last_of j [] = none
last_of j ((k, v) ∷ l) = or_else (last_of j l) (if beq k j then some v else none)

unfoldable pub first_of : Bytes → List (Bytes × Value) → Option Value
first_of j [] = none
first_of j ((k, v) ∷ l) = or_else (if beq k j then some v else none) (first_of j l)

or_else_assoc : (a b c : Option Value) → or_else (or_else a b) c ≡ or_else a (or_else b c)
or_else_assoc (some a) b c = refl
or_else_assoc none b c = refl

or_else-none : (o : Option Value) → or_else o none ≡ o
or_else-none (some v) = refl
or_else-none none = refl

or_else_if :
    (c : Bool) (v : Value) (o : Option Value)
    → (if c then some v else o) ≡ or_else (if c then some v else none) o
or_else_if true v o = refl
or_else_if false v o = refl

or_else-elim :
    (o d : Option Value)
    → elim o as (λ _. Option Value) [ some u ↦ some u | none ↦ d ] ≡ or_else o d
or_else-elim (some u) d = refl
or_else-elim none d = refl

-- Every name of the first list stands in the second.
unfoldable pub all_listed : List Bytes → List Bytes → Bool
all_listed [] names = true
all_listed (k ∷ ks) names = listed k names && all_listed ks names

names_of : List (Bytes × Value) → List Bytes
names_of [] = []
names_of ((k, v) ∷ l) = k ∷ names_of l

listed-all_listed :
    (ks names : List Bytes) (j : Bytes)
    → all_listed ks names ≡ true
    → listed j ks ≡ true
    → listed j names ≡ true
unfolding all_listed listed
listed-all_listed [] names j h e = cc
listed-all_listed (k ∷ ks) names j h e = elim (Bool-cases (beq k j)) [
  | inl b ↦ subst (λ i. listed i names ≡ true) ((beq_iff k j).0 b) (ground arith)
  | inr b ↦ listed-all_listed ks names j (ground arith) (ground arith)
]

last_of-listed :
    (l : List (Bytes × Value)) (j : Bytes) (v : Value)
    → last_of j l ≡ some v
    → listed j (names_of l) ≡ true
unfolding last_of listed names_of
last_of-listed [] j v h = cc
last_of-listed ((k, u) ∷ l) j v h = elim (Option-cases (last_of j l)) [
  | inl e ↦ ground arith
  | inr (w, e) ↦ ground (arith, last_of-listed l j w e)
]

first_of-listed :
    (l : List (Bytes × Value)) (j : Bytes) (v : Value)
    → first_of j l ≡ some v
    → listed j (names_of l) ≡ true
unfolding first_of listed names_of
first_of-listed [] j v h = cc
first_of-listed ((k, u) ∷ l) j v h = elim (Bool-cases (beq k j)) [
  | inl b ↦ ground arith
  | inr b ↦ ground (arith, first_of-listed l j v)
]

-- The names that an option map may have behind add_opts.
all_known : Preset → Bool
unfolding all_listed names_of
all_known p =
    all_listed p.allowed known_options
    && (all_listed (names_of p.fixed) known_options
        && all_listed (names_of p.defaults) known_options)

preset-all_known : (k : PresetKind) → all_known (preset k) ≡ true
unfolding all_known listed text beq
preset-all_known serial_asm340 = refl
preset-all_known _ = refl

module _ {Opt : Type 0} (map : OptMap Opt) where
  get-put_all :
      (j : Bytes) (l : List (Bytes × Value)) (o : Opt)
      → map.get j (put_all map l o) ≡ or_else (last_of j l) (map.get j o)
  unfolding put_all last_of
  get-put_all j [] o = refl
  get-put_all j ((k, v) ∷ l) o =
      get-put_all j l (map.put k v o)
      ∙ ap (or_else (last_of j l)) (map.get-put j k v o ∙ or_else_if (beq k j) v (map.get j o))
      ∙ sym (or_else_assoc (last_of j l) _ _)

  get-put_missing_all :
      (j : Bytes) (l : List (Bytes × Value)) (o : Opt)
      → map.get j (put_missing_all map l o) ≡ or_else (map.get j o) (first_of j l)
  unfolding put_missing_all first_of
  get-put_missing_all j [] o = sym (or_else-none (map.get j o))
  get-put_missing_all j ((k, v) ∷ l) o =
      get-put_missing_all j l (map.put_missing k v o)
      ∙ ap (λ x. or_else x (first_of j l))
          (map.get-put_missing j k v o ∙ or_else-elim (map.get j o) _)
      ∙ or_else_assoc (map.get j o) _ _

  module _ (p : Preset) (o o' : Opt) (done : add_opts map p o ≡ ok o') where
    accepted :
        (map.check_unknown p.allowed o ≡ ok tt)
        × (o' ≡ put_missing_all map p.defaults (put_all map p.fixed o))
    unfolding add_opts
    accepted = ground arith

    pub add_opts_lem :
        (j : Bytes)
        → map.get j o' ≡ or_else (last_of j p.fixed) (or_else (map.get j o) (first_of j p.defaults))
    add_opts_lem j =
        ap (map.get j) accepted.1
        ∙ get-put_missing_all j p.defaults (put_all map p.fixed o)
        ∙ ap (λ x. or_else x (first_of j p.defaults)) (get-put_all j p.fixed o)
        ∙ or_else_assoc (last_of j p.fixed) _ _

module _ {Opt : Type 0} (map : OptMap Opt) where
  known :
      (p : Preset)
      → all_known p ≡ true
      → (o : Opt) (j : Bytes) (v : Value) → map.check_unknown p.allowed o ≡ ok tt
      → or_else (last_of j p.fixed) (or_else (map.get j o) (first_of j p.defaults)) ≡ some v
      → listed j known_options ≡ true
  unfolding all_known
  known p all o j v h e = elim (Option-cases (last_of j p.fixed)) [
    | inr (w, f) ↦
        listed-all_listed (names_of p.fixed) known_options j (ground arith)
          (last_of-listed p.fixed j w f)
    | inl f ↦ elim (Option-cases (map.get j o)) [
      | inr (w, g) ↦
          listed-all_listed p.allowed known_options j (ground arith)
            (map.check_unknown-listed p.allowed o j w h g)
      | inl g ↦ listed-all_listed (names_of p.defaults) known_options j (ground arith) (
          first_of-listed p.defaults j v (
            subst (λ x. or_else x (first_of j p.defaults) ≡ some v) g
              (subst (λ x. or_else x (or_else (map.get j o) (first_of j p.defaults)) ≡ some v) f
                e)))
    ]
  ]

  -- What each of these drivers hands to Driver_serial is accepted there as known options, whatever the
  -- user gave that its own check let through; and each option has the value that the driver sets, or
  -- else the user's, or else the driver's default.
  pub add_opts-known :
      (k : PresetKind) (o o' : Opt) (j : Bytes)
      → add_opts map (preset k) o ≡ ok o'
      → (map.check_unknown known_options o' ≡ ok tt)
        × (map.get j o'
            ≡ or_else
                (last_of j (preset k).fixed)
                (or_else (map.get j o) (first_of j (preset k).defaults)))
  add_opts-known k o o' j done = (
    map.check_unknown-ok known_options o' (λ i v e.
        known (preset k) (preset-all_known k) o i v (accepted map (preset k) o o' done).0
          (sym (add_opts_lem map (preset k) o o' done i) ∙ e)),
    add_opts_lem map (preset k) o o' done j,
  )
