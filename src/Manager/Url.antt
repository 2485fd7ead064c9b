-- ===== src/Manager/Url.antt =====
-- DevManager::parse_url of server/dev_manager.cpp.
use device.Base.{
  ℕ, zero, suc, Option, none, some, List, [], ◌∷◌, ◌++◌, ◌==◌, ◌≡◌, ◌≢◌, refl, arith, if◌then◌else◌,
  Bytes, All,
}

abbrev pub slash : ℕ
slash = b'/'

behind : ℕ → Option (Bytes × Bytes) → Option (Bytes × Bytes)
behind c none = none
behind c (some (a, b)) = some (c ∷ a, b)

-- url.find('/', p1): what stands before the slash, and what behind it.
unfoldable pub cut : Bytes → Option (Bytes × Bytes)
unfolding behind
cut [] = none
cut (c ∷ s) = let rest = behind c (cut s) in if c == slash then some ([], s) else rest

-- for (i=0; i<2; ++i) { … }, with `n` rounds left, and the last part behind it
unfoldable pub parts : ℕ → Bytes → List Bytes
unfolding cut
parts zero s = s ∷ []
parts (suc n) s = elim (cut s) [ none ↦ s ∷ [] | some (a, b) ↦ a ∷ parts n b ]

-- if (url.size()>0 && url[0]=='/') p1++;
unfoldable pub skip_slash : Bytes → Bytes
skip_slash [] = []
skip_slash (c ∷ s) = if c == slash then s else c ∷ s

pub record Request : Type 0 where
  pub act : Bytes
  pub arg : Bytes
  pub msg : Bytes

-- A vector of three texts, empty where no part was found.
abbrev request : List Bytes → Request
request [] = record { act = []; arg = []; msg = [] }
request (a ∷ []) = record { act = a; arg = []; msg = [] }
request (a ∷ b ∷ []) = record { act = a; arg = b; msg = [] }
request (a ∷ b ∷ c ∷ _) = record { act = a; arg = b; msg = c }

unfoldable pub parse_url : Bytes → Request
unfolding parts skip_slash
parse_url url = request (parts 2 (skip_slash url))

-- No slash stands in the text.
abbrev pub NoSlash : Bytes → Type 0
NoSlash = All (λ c. c ≢ slash)

cut-append : (a b : Bytes) → NoSlash a → cut (a ++ slash ∷ b) ≡ some (a, b)
unfolding cut
cut-append [] b h = refl
cut-append (c ∷ a) b h = ground (arith, cut-append a b h.1)

cut-none : (a : Bytes) → NoSlash a → cut a ≡ none
unfolding cut
cut-none [] h = refl
cut-none (c ∷ a) h = ground (arith, cut-none a h.1)

-- The three parts of a URL with a leading slash come back, if the first two have no slash; the
-- third may have some. So do two parts, or one, if none has a slash.
pub parse_url-parts :
    (act arg msg : Bytes)
    → NoSlash act
    → NoSlash arg
    → (parse_url (slash ∷ (act ++ slash ∷ (arg ++ slash ∷ msg)))
        ≡ record { act = act; arg = arg; msg = msg })
      × (parse_url (slash ∷ (act ++ slash ∷ arg)) ≡ record { act = act; arg = arg; msg = [] })
      × (parse_url (slash ∷ act) ≡ record { act = act; arg = []; msg = [] })
unfolding parse_url
parse_url-parts act arg msg h k = (
  rw (cut-append act (arg ++ slash ∷ msg) h, parts, cut-append arg msg k),
  rw (cut-append act arg h, parts, cut-none arg k),
  rw (cut-none act h),
)
