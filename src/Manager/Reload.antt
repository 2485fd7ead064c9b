-- ===== src/Manager/Reload.antt =====
-- DevManager::read_conf of server/dev_manager.cpp: what a reload accepts, and what it changes.
use device.Base.{
  ◌≡◌, refl, subst, ◌⊎◌, List, [], ◌∷◌, arith, Bytes, Result, ok, err, crash, inl, inr,
}
use device.Map.{Map, bytes_key}
use device.Device.{Device}
use device.Manager.{Libs, ConfLine, Words, words, failed}
use device.Manager.Conf.{read_device, read_lines}

module _ {Opt Drv World : Type 0} (libs : Libs Opt World) where
  -- A line without words ends the file, and any other is accepted.
  pub read_lines-step :
      (f : Bytes) (l : ConfLine) (ls : List ConfLine) (ds ds' : Map Bytes (Device Opt Drv))
      → read_lines libs f (l ∷ ls) ds ≡ ok ds'
      → ((ds ≡ ds') × (l.text ≡ words []))
        ⊎ ((vs : List Bytes) × (ds'' : Map Bytes (Device Opt Drv)) × (l.text ≡ words vs)
            × (read_device libs vs ds ≡ ok ds'')
            × (read_lines libs f ls ds'' ≡ ok ds'))
  unfolding read_lines
  read_lines-step f l ls ds ds' h = go l.text refl
    where
      next :
          (v : Bytes) (vs : List Bytes)
          → l.text ≡ words (v ∷ vs)
          → (r : Result (Map Bytes (Device Opt Drv))) → read_device libs (v ∷ vs) ds ≡ r
          → ((ds ≡ ds') × (l.text ≡ words []))
            ⊎ ((vs : List Bytes) × (ds'' : Map Bytes (Device Opt Drv)) × (l.text ≡ words vs)
                × (read_device libs vs ds ≡ ok ds'')
                × (read_lines libs f ls ds'' ≡ ok ds'))
      next v vs e (ok ds'') k = inr (v ∷ vs, ds'', e, k, ground arith)
      next v vs e (err m) k = absurd (ground arith)
      next v vs e crash k = absurd (ground arith)

      go :
          (r : Words)
          → l.text ≡ r
          → ((ds ≡ ds') × (l.text ≡ words []))
            ⊎ ((vs : List Bytes) × (ds'' : Map Bytes (Device Opt Drv)) × (l.text ≡ words vs)
                × (read_device libs vs ds ≡ ok ds'')
                × (read_lines libs f ls ds'' ≡ ok ds'))
      go (words []) e = inl (ground arith, e)
      go (words (v ∷ vs)) e = next v vs e (read_device libs (v ∷ vs) ds) refl
      go (failed m) e = absurd (ground arith)

  -- What every accepted line keeps, the loop keeps.
  pub read_lines_induction :
      (P : Map Bytes (Device Opt Drv) → Type 0)
      → ((vs : List Bytes) (ds ds' : Map Bytes (Device Opt Drv))
          → P ds
          → read_device libs vs ds ≡ ok ds'
          → P ds')
      → (f : Bytes) (ls : List ConfLine) (ds ds' : Map Bytes (Device Opt Drv)) → P ds
      → read_lines libs f ls ds ≡ ok ds'
      → P ds'
  read_lines_induction P keep f [] ds ds' p h =
      let e : ds ≡ ds' = unfold read_lines in ground arith in subst P e p
  read_lines_induction P keep f (l ∷ ls) ds ds' p h = elim (read_lines-step f l ls ds ds' h) [
    | inl (e, _) ↦ subst P e p
    | inr (vs, ds'', t, k, h') ↦ read_lines_induction P keep f ls ds'' ds' (keep vs ds ds'' p k) h'
  ]
