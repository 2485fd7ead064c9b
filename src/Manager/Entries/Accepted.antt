-- ===== src/Manager/Entries/Accepted.antt =====
-- DevManager::read_conf of server/dev_manager.cpp: which files it accepts.
use device.Base.{
  ◌%◌, ◌==◌, ==_iff, ◌≡◌, ◌≢◌, ◌↔◌, refl, ap, ◌∙◌, arith, subst, true, false, Bool-cases, inl, inr,
  Option, none, some, List, [], ◌∷◌, All, length, Bytes, Result, ok, err, crash,
}
use device.Device.{Device, new_device, copy_device}
use device.Manager.{Libs, ConfLine, words, Manager}
use device.Manager.Conf.{
  strcspn, read_pairs, add_device, read_device, read_lines, applied, read_opened, read_conf,
}
use device.Manager.Entries.{
  strcspn-IsAllowed, Entry, option_words, entry_words, IsEntry, AreLines, Without, Differ,
  AreEntries, HasEntries,
}
use device.Manager.Entries.Reading.{Fresh, nothing_there, read_lines-entries}
use device.Manager.Reload.{read_lines-step}
use device.Map.{Map, bytes_key, has, insert, has-insert}

-- The words are those of some options.
abbrev AreOptions : List Bytes → Type 0
AreOptions ws = (os : List (Bytes × Bytes)) × (ws ≡ option_words os) × All (λ o. o.0 ≢ []) os

-- The words are those of an entry, and nothing in the map has its name.
abbrev IsNew : {D : Type 0} → Map Bytes D → Map Bytes D → List Bytes → Type 0
IsNew {D} ds ds' ws =
    (e : Entry) × (d : D) × (ws ≡ entry_words e)
    × IsEntry e
    × (has e.name ds ≡ false)
    × (ds' ≡ insert e.name d ds)

module _ {Opt World : Type 0} (libs : Libs Opt World) where
  read_pairs-AreOptions :
      (ws : List Bytes) (o o' : Opt)
      → (length ws % 2 == 0) ≡ true
      → read_pairs libs ws o ≡ ok o'
      → AreOptions ws
  unfolding read_pairs option_words
  read_pairs-AreOptions [] o o' even h = ([], refl, tt)
  read_pairs-AreOptions (p ∷ []) o o' even h = absurd (ground arith)
  read_pairs-AreOptions ([] ∷ v ∷ ws) o o' even h = absurd (cc)
  read_pairs-AreOptions ((c ∷ []) ∷ v ∷ ws) o o' even h = absurd (cc)
  read_pairs-AreOptions ((c ∷ d ∷ k) ∷ v ∷ ws) o o' even h = elim (Bool-cases (c == b'-')) [
    | inl e ↦
        let (os, t, n) =
          read_pairs-AreOptions ws (libs.opt_put (d ∷ k) v o) o' (ground arith) (ground arith) in
        (
          (d ∷ k, v) ∷ os,
          ap (λ x. (x ∷ d ∷ k) ∷ v ∷ ws) ((==_iff c b'-').0 e) ∙ ap (λ x. (b'-' ∷ d ∷ k) ∷ v ∷ x) t,
          (λ x. cc, n),
        )
    | inr e ↦ absurd (ground arith)
  ]

module _ {Opt Drv World : Type 0} (libs : Libs Opt World) where
  add_device-ok :
      (dev drv : Bytes) (r : Result Opt) (ds ds' : Map Bytes (Device Opt Drv))
      → add_device libs dev drv r ds ≡ ok ds'
      → (has dev ds ≡ false)
        × ((d : Device Opt Drv) × (ds' ≡ insert dev d ds))
        × ((o : Opt) × (r ≡ ok o))
  unfolding add_device
  add_device-ok dev drv (ok o) ds ds' h = elim (Bool-cases (has dev ds)) [
    | inl e ↦ absurd (ground arith)
    | inr e ↦ (e, (copy_device (new_device dev drv o), ground arith), (o, refl))
  ]
  add_device-ok dev drv (err x) ds ds' h = absurd (cc)
  add_device-ok dev drv crash ds ds' h = absurd (cc)

  read_device-IsNew :
      (ws : List Bytes) (ds ds' : Map Bytes (Device Opt Drv))
      → read_device libs ws ds ≡ ok ds'
      → IsNew ds ds' ws
  unfolding read_device
  read_device-IsNew (dev ∷ drv ∷ args) ds ds' h = elim (Bool-cases (length dev == 0)) [
    | inl a ↦ absurd (ground arith)
    | inr a ↦ elim (Bool-cases (strcspn dev == length dev)) [
      | inr b ↦ absurd (ground arith)
      | inl b ↦ elim (Bool-cases (length args % 2 == 0)) [
        | inr c ↦ absurd (ground arith)
        | inl c ↦
            let (n, (d, i), (o, p)) =
              add_device-ok dev drv (read_pairs libs args libs.opt_empty) ds ds' (ground arith) in
            let (os, t, k) = read_pairs-AreOptions libs args libs.opt_empty o c p in
            (
              record { name = dev; driver = drv; options = os },
              d,
              ap (λ x. dev ∷ drv ∷ x) t,
              record {
                nonempty = λ x. ground (arith, ap length x);
                valid = (strcspn-IsAllowed dev).0 ((==_iff (strcspn dev) (length dev)).0 b);
                named = k;
              },
              n,
              i,
            )
      ]
    ]
  ]
  read_device-IsNew _ ds ds' h = absurd (cc)

  Without-insert :
      (n : Bytes) (d : Device Opt Drv) (ds : Map Bytes (Device Opt Drv)) (es : List Entry)
      → Fresh (insert n d ds) es
      → Without n es × Fresh ds es
  Without-insert n d ds [] f = (tt, tt)
  Without-insert n d ds (e ∷ es) (f, fs) =
      let (w, g) = Without-insert n d ds es fs in
      (
        (
          ground (
            arith,
            has-insert n e.name d ds,
            bytes_key.eqb_iff n e.name,
            bytes_key.eqb_iff e.name n,
          ),
          w,
        ),
        (ground (arith, has-insert n e.name d ds), g),
      )

  read_lines-AreEntries :
      (f : Bytes) (ls : List ConfLine) (ds ds' : Map Bytes (Device Opt Drv))
      → read_lines libs f ls ds ≡ ok ds'
      → (es : List Entry) × AreEntries es ls × Fresh ds es
  unfolding AreLines Differ
  read_lines-AreEntries f [] ds ds' h = ([], record { lines = tt; each = tt; differ = tt }, tt)
  read_lines-AreEntries f (l ∷ ls) ds ds' h = elim (read_lines-step libs f l ls ds ds' h) [
    | inl (_, t) ↦ ([], record { lines = t; each = tt; differ = tt }, tt)
    | inr (vs, ds'', t, k, h') ↦
        let (e, d, v, good, n, i) = read_device-IsNew vs ds ds'' k in
        let (es, a, fresh) = read_lines-AreEntries f ls ds'' ds' h' in
        let (w, g) = Without-insert e.name d ds es (subst (λ x. Fresh x es) i fresh) in
        (
          e ∷ es,
          record {
            lines = (t ∙ ap words v, a.lines);
            each = (good, a.each);
            differ = (w, a.differ);
          },
          (n, g),
        )
  ]

  read_opened-HasEntries :
      (file : Option (List ConfLine)) (m : Manager Opt Drv) (w : World)
      → (read_opened libs file (m, w)).0 ≡ ok tt
      → HasEntries file
  unfolding read_opened applied
  read_opened-HasEntries none m w h = absurd (cc)
  read_opened-HasEntries (some ls) m w h = go (read_lines libs m.devfile ls []) refl
    where
      go :
          (r : Result (Map Bytes (Device Opt Drv)))
          → read_lines libs m.devfile ls [] ≡ r
          → HasEntries (some ls)
      go (ok ds) e = let (es, a, _) = read_lines-AreEntries m.devfile ls [] ds e in (es, a)
      go (err x) e = absurd (ground arith)
      go crash e = absurd (ground arith)

  HasEntries-read_opened :
      (file : Option (List ConfLine)) (m : Manager Opt Drv) (w : World)
      → HasEntries file
      → (read_opened libs file (m, w)).0 ≡ ok tt
  unfolding read_opened applied
  HasEntries-read_opened none m w h = absurd h
  HasEntries-read_opened (some ls) m w (es, a) =
      rw (read_lines-entries libs m.devfile es ls [] a (nothing_there _ es)) refl

  -- A reload succeeds exactly if the file can be opened and its lines, up to the first without
  -- words, are those of entries with distinct names. A name is not empty and has no blank, newline,
  -- tab, slash, backslash or zero byte; the options are pairs of a dash with a name that is not
  -- empty, and a value.
  pub read_conf_accepts :
      (m : Manager Opt Drv) (w : World)
      → ((read_conf libs (m, w)).0 ≡ ok tt) ↔ HasEntries (libs.read_file m.devfile w).0
  unfolding read_conf
  read_conf_accepts m w =
      let (file, w') = libs.read_file m.devfile w in
      (read_opened-HasEntries file m w', HasEntries-read_opened file m w')
