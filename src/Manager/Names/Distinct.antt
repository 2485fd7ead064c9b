-- ===== src/Manager/Names/Distinct.antt =====
-- server/dev_manager.cpp: the names of connections stay distinct.
use device.Base.{
  ℕ, ◌≡◌, ◌≢◌, refl, sym, true, false, some, [], ◌∷◌, arith, if◌then◌else◌, Bytes, beq, beq_iff,
  All, ok, err, inl, inr, Bool-cases, text,
}
use device.Map.{Map, number_key, lookup, insert, erase, lookup-insert, lookup-erase}
use device.Manager.{Libs, Manager}
use device.Manager.Names.{
  starts_with_hash, taken, default_name, effective_name, set_conn_name, conn_open, conn_close,
}

-- A name that begins with # is the default name of its own connection.
unfoldable pub NameFits : {Opt World : Type 0} → Libs Opt World → ℕ → Bytes → Type 0
NameFits libs c n = starts_with_hash n ≡ true → n ≡ default_name libs c

unfoldable pub Hashed : {Opt World : Type 0} → Libs Opt World → Map ℕ Bytes → Type 0
Hashed libs cs = All (λ e. NameFits libs e.0 e.1) cs

-- Default names are where they belong, and no two connections have one name.
pub record IsNamed {Opt World : Type 0} (libs : Libs Opt World) (cs : Map ℕ Bytes) : Type 0 where
  pub hashed : Hashed libs cs
  pub distinct : (i j : ℕ) (n : Bytes) → lookup i cs ≡ some n → lookup j cs ≡ some n → i ≡ j

-- Numbers print as distinct texts.
abbrev pub Injective : {Opt World : Type 0} → Libs Opt World → Type 0
Injective libs = (a b : ℕ) → libs.show a ≡ libs.show b → a ≡ b

taken_none :
    (conn j : ℕ) (n : Bytes) (cs : Map ℕ Bytes)
    → taken conn n cs ≡ false
    → lookup j cs ≡ some n
    → j ≡ conn
unfolding taken lookup
taken_none conn j n [] h e = absurd (cc)
taken_none conn j n ((i, x) ∷ cs) h e = ground (arith, taken_none conn j n cs, beq_iff x n)

taken_of_lookup :
    (conn j : ℕ) (n : Bytes) (cs : Map ℕ Bytes)
    → lookup j cs ≡ some n
    → j ≢ conn
    → taken conn n cs ≡ true
unfolding taken lookup
taken_of_lookup conn j n [] e ne = absurd (cc)
taken_of_lookup conn j n ((i, x) ∷ cs) e ne =
    ground (arith, taken_of_lookup conn j n cs, beq_iff x n)

module _ {Opt World : Type 0} (libs : Libs Opt World) where
  insert-Hashed :
      (c : ℕ) (n : Bytes) (cs : Map ℕ Bytes)
      → NameFits libs c n
      → Hashed libs cs
      → Hashed libs (insert c n cs)
  unfolding Hashed insert
  insert-Hashed c n [] h a = (h, tt)
  insert-Hashed c n ((j, x) ∷ cs) h a = ground (arith, insert-Hashed c n cs h a.1)

  erase-Hashed : (c : ℕ) (cs : Map ℕ Bytes) → Hashed libs cs → Hashed libs (erase c cs)
  unfolding Hashed erase
  erase-Hashed c [] a = tt
  erase-Hashed c ((j, x) ∷ cs) a = ground (arith, erase-Hashed c cs a.1)

  -- The name of another connection differs from the default name of this one.
  other_name :
      (c j : ℕ) (x : Bytes)
      → Injective libs
      → NameFits libs j x
      → c ≢ j
      → beq x (default_name libs c) ≡ false
  unfolding NameFits
  other_name c j x inj f ne = elim (Bool-cases (beq x (default_name libs c))) [
    | inl e ↦
        let same = (beq_iff x (default_name libs c)).0 e in
        let hash : starts_with_hash x ≡ true = rw same refl in
        absurd (ne (sym (inj j c (cc (f hash, same)))))
    | inr e ↦ e
  ]

  default_free :
      (c : ℕ) (cs : Map ℕ Bytes)
      → Injective libs
      → Hashed libs cs
      → taken c (default_name libs c) cs ≡ false
  unfolding Hashed taken
  default_free c [] inj a = refl
  default_free c ((j, x) ∷ cs) inj a =
      ground (arith, other_name c j x inj a.0, default_free c cs inj a.1)

  insert-IsNamed :
      (c : ℕ) (n : Bytes) (cs : Map ℕ Bytes)
      → NameFits libs c n
      → taken c n cs ≡ false
      → IsNamed libs cs
      → IsNamed libs (insert c n cs)
  insert-IsNamed c n cs f free v = record {
    hashed = insert-Hashed c n cs f v.hashed;
    distinct = λ i j x p q. ground (
      arith,
      lookup-insert c i n cs,
      lookup-insert c j n cs,
      taken_none c i n cs free,
      taken_none c j n cs free,
      v.distinct i j x,
    );
  }

  erase-IsNamed : (c : ℕ) (cs : Map ℕ Bytes) → IsNamed libs cs → IsNamed libs (erase c cs)
  erase-IsNamed c cs v = record {
    hashed = erase-Hashed c cs v.hashed;
    distinct =
        λ i j x p q. ground (arith, lookup-erase c i cs, lookup-erase c j cs, v.distinct i j x);
  }

  effective_name-NameFits :
      (c : ℕ) (n : Bytes) → starts_with_hash n ≡ false → NameFits libs c (effective_name libs c n)
  unfolding NameFits
  effective_name-NameFits c [] h e = refl
  effective_name-NameFits c (x ∷ n) h e = cc

-- The names of a manager.
abbrev pub Named : {Opt Drv World : Type 0} → Libs Opt World → Manager Opt Drv → Type 0
Named libs m = IsNamed libs m.conn_names

module _ {Opt Drv World : Type 0} (libs : Libs Opt World) where
  pub set_conn_name-Named :
      (c : ℕ) (n : Bytes) (m : Manager Opt Drv) (w : World)
      → Named libs m
      → Named libs (set_conn_name libs c n (m, w)).1.0
  unfolding set_conn_name
  set_conn_name-Named c n m w v = elim (Bool-cases (starts_with_hash n)) [
    | inl e ↦ rw e v
    | inr e ↦ rw e (elim (Bool-cases (taken c (effective_name libs c n) m.conn_names)) [
      | inl t ↦ rw t v
      | inr f ↦ rw f (
          insert-IsNamed libs c (effective_name libs c n) m.conn_names
            (effective_name-NameFits libs c n e) f v)
    ])
  ]

  -- A name that another connection has is refused and nothing changes; the error says whether it is
  -- because the name begins with #.
  pub set_conn_name_refused :
      (c j : ℕ) (n : Bytes) (m : Manager Opt Drv) (w : World)
      → n ≢ []
      → lookup j m.conn_names ≡ some n
      → j ≢ c
      → set_conn_name libs c n (m, w) ≡ (
        err (
            if starts_with_hash n
            then text "name can not start with #"
            else text "name belongs to another connection"),
        (m, w),
      )
  unfolding set_conn_name
  set_conn_name_refused c j [] m w ne h d = absurd (ne refl)
  set_conn_name_refused c j (x ∷ n) m w ne h d = elim (Bool-cases (starts_with_hash (x ∷ n))) [
    | inl e ↦ rw e refl
    | inr e ↦ rw (e, taken_of_lookup c j (x ∷ n) m.conn_names h d)
  ]

  -- A new connection always gets its default name, # and its number: `conn_open` never throws, and
  -- the names stay distinct. This rests on numbers printing as distinct texts.
  pub conn_open-Named :
      (c : ℕ) (m : Manager Opt Drv) (w : World)
      → Injective libs
      → Named libs m
      → (conn_open libs c (m, w)
          ≡ (ok tt, (record m { conn_names = insert c (default_name libs c) m.conn_names }, w)))
        × Named libs (conn_open libs c (m, w)).1.0
  unfolding conn_open
  conn_open-Named c m w inj v = (
    unfold set_conn_name in rw (default_free libs c m.conn_names inj v.hashed),
    set_conn_name-Named c [] m w v,
  )

  pub conn_close-Named : (c : ℕ) (m : Manager Opt Drv) → Named libs m → Named libs (conn_close c m)
  unfolding conn_close
  conn_close-Named c m v = erase-IsNamed libs c m.conn_names v
