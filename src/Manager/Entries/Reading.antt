-- ===== src/Manager/Entries/Reading.antt =====
-- DevManager::read_conf of server/dev_manager.cpp: a file of entries is read as their devices.
use device.Base.{
  ◌%◌, ◌==◌, ◌≡◌, ◌≢◌, ==_iff, refl, sym, ap, ◌∙◌, arith, subst, true, false, Option, none, some,
  List, [], ◌∷◌, All, Bool-cases, inl, inr, beq_iff, length, length_nonempty, Bytes, beq, Result,
  ok,
}
use device.Device.{Device, new_device, copy_device}
use device.Manager.{Libs, ConfLine, words, Manager}
use device.Manager.Conf.{
  read_pairs, add_device, read_device, read_lines, copy_all, applied, read_opened, read_conf,
}
use device.Manager.Entries.{
  strcspn-IsAllowed, Entry, option_words, entry_words, IsEntry, AreLines, Without, Differ,
  AreEntries, options_put, entry_device, find_entry, insert_all,
}
use device.Map.{Map, bytes_key, has, lookup, insert, has-insert, lookup-insert}

-- No device of the map has the name of an entry.
abbrev pub Fresh : {D : Type 0} → Map Bytes D → List Entry → Type 0
Fresh ds = All (λ e. has e.name ds ≡ false)

pub nothing_there : (D : Type 0) (es : List Entry) → Fresh {D = D} [] es
unfolding has
nothing_there D [] = tt
nothing_there D (e ∷ es) = (refl, nothing_there D es)

option_words_even : (os : List (Bytes × Bytes)) → (length (option_words os) % 2 == 0) ≡ true
unfolding option_words
option_words_even [] = refl
option_words_even ((k, v) ∷ os) = let even = option_words_even os in ground arith

module _ {Opt World : Type 0} (libs : Libs Opt World) where
  read_pairs-option_words :
      (os : List (Bytes × Bytes)) (o : Opt)
      → All (λ x. x.0 ≢ []) os
      → read_pairs libs (option_words os) o ≡ ok (options_put libs os o)
  unfolding read_pairs option_words options_put
  read_pairs-option_words [] o h = refl
  read_pairs-option_words (([], v) ∷ os) o (h, hs) = absurd (h refl)
  read_pairs-option_words ((c ∷ k, v) ∷ os) o (h, hs) =
      read_pairs-option_words os (libs.opt_put (c ∷ k) v o) hs

module _ {Opt Drv World : Type 0} (libs : Libs Opt World) where
  read_device-entry :
      (e : Entry) (ds : Map Bytes (Device Opt Drv))
      → IsEntry e
      → has e.name ds ≡ false
      → read_device libs (entry_words e) ds ≡ ok (insert e.name (entry_device libs e) ds)
  unfolding read_device add_device entry_device copy_device new_device
  read_device-entry e ds h fresh =
      rw
        (
          length_nonempty e.name h.nonempty,
          (strcspn-IsAllowed e.name).1 h.valid,
          (==_iff (length e.name) (length e.name)).1 refl,
          option_words_even e.options,
          read_pairs-option_words libs e.options libs.opt_empty h.named,
          fresh,
        )
        refl

  insert-Fresh :
      (e : Entry) (es : List Entry) (d : Device Opt Drv) (ds : Map Bytes (Device Opt Drv))
      → Without e.name es
      → Fresh ds es
      → Fresh (insert e.name d ds) es
  insert-Fresh e [] d ds o f = tt
  insert-Fresh e (x ∷ es) d ds (o, os) (f, fs) = (
    ground (
      arith,
      has-insert e.name x.name d ds,
      bytes_key.eqb_iff e.name x.name,
      bytes_key.eqb_iff x.name e.name,
    ),
    insert-Fresh e es d ds os fs,
  )

  read_lines-accepted :
      (f v : Bytes) (vs : List Bytes) (l : ConfLine) (ls : List ConfLine)
      (ds ds' : Map Bytes (Device Opt Drv))
      → l.text ≡ words (v ∷ vs)
      → read_device libs (v ∷ vs) ds ≡ ok ds'
      → read_lines libs f (l ∷ ls) ds ≡ read_lines libs f ls ds'
  unfolding read_lines
  read_lines-accepted f v vs l ls ds ds' e h =
      subst
        (λ t.
          read_lines libs f (record { line = l.line; text = t } ∷ ls) ds ≡ read_lines libs f ls ds')
        (sym e) (rw (h, read_lines) refl)

  pub read_lines-entries :
      (f : Bytes) (es : List Entry) (ls : List ConfLine) (ds : Map Bytes (Device Opt Drv))
      → AreEntries es ls
      → Fresh ds es
      → read_lines libs f ls ds ≡ ok (insert_all libs es ds)
  unfolding read_lines insert_all AreLines Differ
  read_lines-entries f [] [] ds h fresh = refl
  read_lines-entries f [] (l ∷ ls) ds h fresh =
      subst (λ t. read_lines libs f (record { line = l.line; text = t } ∷ ls) ds ≡ ok ds)
        (sym h.lines) refl
  read_lines-entries f (e ∷ es) [] ds h fresh = absurd h.lines
  read_lines-entries f (e ∷ es) (l ∷ ls) ds h (new, fresh) =
      read_lines-accepted f e.name (e.driver ∷ option_words e.options) l ls ds _ h.lines.0
        (read_device-entry e ds h.each.0 new)
      ∙ read_lines-entries f es ls _
          (record { lines = h.lines.1; each = h.each.1; differ = h.differ.1 })
          (insert-Fresh e es (entry_device libs e) ds h.differ.0 fresh)

  copy_all-insert :
      (e : Entry) (ds : Map Bytes (Device Opt Drv))
      → copy_all (insert e.name (entry_device libs e) ds)
        ≡ insert e.name (entry_device libs e) (copy_all ds)
  unfolding insert entry_device copy_device new_device
  copy_all-insert e [] = refl
  copy_all-insert e ((n, d) ∷ ds) = ground (arith, copy_all-insert e ds)

  copy_all-insert_all :
      (es : List Entry) (ds : Map Bytes (Device Opt Drv))
      → copy_all (insert_all libs es ds) ≡ insert_all libs es (copy_all ds)
  unfolding insert_all
  copy_all-insert_all [] ds = refl
  copy_all-insert_all (e ∷ es) ds =
      copy_all-insert_all es (insert e.name (entry_device libs e) ds)
      ∙ ap (insert_all libs es) (copy_all-insert e ds)

  find_entry-Without :
      (n : Bytes) (es : List Entry) → Without n es → find_entry {Drv = Drv} libs n es ≡ none
  unfolding find_entry
  find_entry-Without n [] h = refl
  find_entry-Without n (e ∷ es) (h, hs) = rw h (find_entry-Without n es hs)

  or_else : Option (Device Opt Drv) → Option (Device Opt Drv) → Option (Device Opt Drv)
  or_else (some d) o = some d
  or_else none o = o

  lookup-insert_all :
      (n : Bytes) (es : List Entry) (ds : Map Bytes (Device Opt Drv))
      → Differ es
      → lookup n (insert_all libs es ds) ≡ or_else (find_entry libs n es) (lookup n ds)
  unfolding insert_all find_entry or_else Differ
  lookup-insert_all n [] ds h = refl
  lookup-insert_all n (e ∷ es) ds (w, h) =
      lookup-insert_all n es (insert e.name (entry_device libs e) ds) h
      ∙ elim (Bool-cases (beq e.name n)) [
        | inl k ↦
            rw (k, lookup-insert e.name n (entry_device {Drv = Drv} libs e) ds, k)
              (ap (λ o. or_else o (some (entry_device libs e)))
                (find_entry-Without n es (subst (λ x. Without x es) ((beq_iff e.name n).0 k) w)))
        | inr k ↦ rw (k, lookup-insert e.name n (entry_device {Drv = Drv} libs e) ds, k) refl
      ]

  or_else-none : (o : Option (Device Opt Drv)) → or_else o none ≡ o
  unfolding or_else
  or_else-none none = refl
  or_else-none (some d) = refl

  abbrev loaded :
      Manager Opt Drv
      → World
      → Map Bytes (Device Opt Drv)
      → Result (Unit {0}) × (Manager Opt Drv × World)
  loaded m w ds = (ok tt, (record m { devices = ds }, w))

  read_conf-insert_all :
      (m : Manager Opt Drv) (w w' : World) (ls : List ConfLine) (es : List Entry)
      → libs.read_file m.devfile w ≡ (some ls, w')
      → AreEntries es ls
      → read_conf libs (m, w) ≡ (ok tt, (record m { devices = insert_all libs es [] }, w'))
  unfolding read_conf read_opened applied
  read_conf-insert_all m w w' ls es f a =
      ap (λ (r : Option (List ConfLine) × World). read_opened libs r.0 (m, r.1)) f
      ∙ ap (λ r. applied libs r (m, w'))
          (read_lines-entries m.devfile es ls [] a (nothing_there _ es))
      ∙ ap (loaded m w') (copy_all-insert_all es [])

  -- A file of entries with distinct names is read without an error, and then each name has the
  -- device of its entry, with the driver and the options that stand there, put in their order, and
  -- no other name has one; the names of the connections and of the file stay.
  pub read_conf-entries :
      (m : Manager Opt Drv) (w w' : World) (ls : List ConfLine) (es : List Entry)
      → libs.read_file m.devfile w ≡ (some ls, w')
      → AreEntries es ls
      → (n : Bytes)
      → (read_conf libs (m, w)
          ≡ (ok tt, (record m { devices = (read_conf libs (m, w)).1.0.devices }, w')))
        × (lookup n (read_conf libs (m, w)).1.0.devices ≡ find_entry libs n es)
  unfolding lookup
  read_conf-entries m w w' ls es f a n =
      let e = read_conf-insert_all m w w' ls es f a in
      (
        e
            ∙ ap (λ (r : Result (Unit {0}) × (Manager Opt Drv × World)). loaded m w' r.1.0.devices)
                (sym e),
        ap (λ (r : Result (Unit {0}) × (Manager Opt Drv × World)). lookup n r.1.0.devices) e
            ∙ (lookup-insert_all n es [] a.differ ∙ or_else-none (find_entry libs n es)),
      )
