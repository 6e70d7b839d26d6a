-- ===== src/Prelude/Dict.antt =====
-- A JavaScript object or `Map`: an association list in insertion order.
use mathlib.Core.List.{append-nil, append_assoc}
use indrav.Prelude.{
  ℕ, ◌≡◌, refl, sym, ◌∙◌, ◌≢◌, ◌++◌, Bool, true, false, Option, none, some, List, [], ◌∷◌, arith,
  ◌==◌, if◌then◌else◌,
}

abbrev pub Dict {ℓ} : Type ℓ → Type ℓ
Dict V = List (ℕ × V)

module _ {ℓ} {V : Type ℓ} where
  abbrev pub keys : Dict V → List ℕ
  keys [] = []
  keys ((k, v) ∷ d) = k ∷ keys d

  -- `delete d[k]`, `d.delete(k)`
  abbrev pub erase : ℕ → Dict V → Dict V
  erase key [] = []
  erase key (entry ∷ rest) = if key == entry.0 then rest else entry ∷ erase key rest

  -- `d[k]`, `d.get(k)`; `none` is `undefined`
  abbrev pub lookup : ℕ → Dict V → Option V
  lookup key [] = none
  lookup key ((k, value) ∷ rest) = if key == k then some value else lookup key rest

  abbrev pub values : Dict V → List V
  values [] = []
  values ((k, v) ∷ d) = v ∷ values d

  -- `d.has(k)`
  abbrev pub has : ℕ → Dict V → Bool
  has key d = elim (lookup key d) [ none ↦ false | some _ ↦ true ]

  -- `d[k] = v`, `d.set(k, v)`, `{ ...d, [k]: v }`
  abbrev pub insert : ℕ → V → Dict V → Dict V
  insert key value [] = (key, value) ∷ []
  insert key value (entry ∷ rest) =
      if key == entry.0 then (key, value) ∷ rest else entry ∷ insert key value rest

  -- `new Map(entries)` on top of `d`, and a `reduce` that spreads its accumulator.
  abbrev pub insert_all : Dict V → Dict V → Dict V
  insert_all [] d = d
  insert_all ((k, v) ∷ es) d = insert_all es (insert k v d)

  -- Each key stands once: what every object and every `Map` satisfies.
  abbrev pub IsObject : Dict V → Type 0
  IsObject [] = Unit
  IsObject ((k, v) ∷ d) = (has k d ≡ false) × IsObject d

module _ {ℓ} {V : Type ℓ} where
  pub lookup-insert :
      (j k : ℕ) (v : V) (d : Dict V)
      → lookup j (insert k v d) ≡ (if j == k then some v else lookup j d)
  lookup-insert j k v [] = refl
  lookup-insert j k v (e ∷ d) = ground (arith, lookup-insert j k v d)

  pub lookup-erase_ne :
      (key erased : ℕ) (d : Dict V) → key ≢ erased → lookup key (erase erased d) ≡ lookup key d
  lookup-erase_ne key erased [] ne = refl
  lookup-erase_ne key erased (entry ∷ rest) ne = ground (arith, lookup-erase_ne key erased rest ne)

  pub lookup-erase_self : (k : ℕ) (d : Dict V) → IsObject d → lookup k (erase k d) ≡ none
  lookup-erase_self k [] h = refl
  lookup-erase_self k (e ∷ d) h = ground (arith, lookup-erase_self k d h.1)

  pub insert-IsObject : (k : ℕ) (v : V) (d : Dict V) → IsObject d → IsObject (insert k v d)
  insert-IsObject k v [] h = (refl, tt)
  insert-IsObject k v (e ∷ d) h = ground (arith, insert-IsObject k v d h.1, lookup-insert e.0 k v d)

  pub erase-IsObject : (k : ℕ) (d : Dict V) → IsObject d → IsObject (erase k d)
  erase-IsObject k [] h = tt
  erase-IsObject k (e ∷ d) h = ground (arith, erase-IsObject k d h.1, lookup-erase_ne e.0 k d)

  pub erase-insert : (k : ℕ) (v : V) (d : Dict V) → lookup k d ≡ none → erase k (insert k v d) ≡ d
  erase-insert k v [] h = ground arith
  erase-insert k v (e ∷ d) h = ground (arith, erase-insert k v d)

module _ {ℓ} {V : Type ℓ} where
  -- No key of the second is one of the first.
  abbrev pub Apart : Dict V → Dict V → Type 0
  Apart d [] = Unit
  Apart d ((k, _) ∷ es) = (has k d ≡ false) × Apart d es

  pub insert_fresh :
      (k : ℕ) (v : V) (d : Dict V) → has k d ≡ false → insert k v d ≡ d ++ (k, v) ∷ []
  insert_fresh k v [] h = refl
  insert_fresh k v (e ∷ d) h = ground (arith, insert_fresh k v d)

  Apart-insert :
      (k : ℕ) (v : V) (d es : Dict V) → Apart d es → has k es ≡ false → Apart (insert k v d) es
  Apart-insert k v d [] h n = tt
  Apart-insert k v d (e ∷ es) h n =
      (ground (arith, lookup-insert e.0 k v d, h.0), Apart-insert k v d es h.1 (ground arith))

  insert_all-append : (es d : Dict V) → IsObject es → Apart d es → insert_all es d ≡ d ++ es
  insert_all-append [] d o h = sym (append-nil d)
  insert_all-append ((k, v) ∷ es) d o h =
      insert_all-append es (insert k v d) o.1 (Apart-insert k v d es h.1 o.0)
      ∙ rw (insert_fresh k v d h.0, append_assoc)

  Apart-nil : (es : Dict V) → Apart [] es
  Apart-nil [] = tt
  Apart-nil (e ∷ es) = (refl, Apart-nil es)

  -- Reading the entries of an object back gives the object.
  pub insert_all-nil : (es : Dict V) → IsObject es → insert_all es [] ≡ es
  insert_all-nil es o = insert_all-append es [] o (Apart-nil es)

  -- Reading any entries gives an object.
  pub insert_all-IsObject : (es d : Dict V) → IsObject d → IsObject (insert_all es d)
  insert_all-IsObject [] d h = h
  insert_all-IsObject ((k, v) ∷ es) d h =
      insert_all-IsObject es (insert k v d) (insert-IsObject k v d h)
