-- ===== src/Common/Dict.antt =====
-- A Go map as an association list, in the order in which a `range` over it happens to go: a write
-- replaces the entry of its key, or adds one at the end.
use mathlib.Core.Bool.{Bool, false}
use mathlib.Core.Path.{◌≡◌, refl, ap, ◌∙◌}
use mathlib.Core.List.{List, [], ◌∷◌, ◌++◌, append-nil, append_assoc}
use solo_coder.Common.Lists.{All}
use solo_coder.Common.Tests.{if◌then◌else◌}

module _ {K V : Type 0} (eq : K → K → Bool) where
  unfoldable pub insert : K → V → List (K × V) → List (K × V)
  insert k v [] = (k, v) ∷ []
  insert k v ((j, w) ∷ m) = if eq j k then (k, v) ∷ m else (j, w) ∷ insert k v m

  -- All the keys differ.
  abbrev pub Distinct : List (K × V) → Type 0
  Distinct [] = Unit
  Distinct (p ∷ m) = All (λ (q : K × V). eq p.0 q.0 ≡ false) m × Distinct m

  unfoldable pub insert_all : List (K × V) → List (K × V) → List (K × V)
  insert_all m [] = m
  insert_all m (p ∷ ps) = insert_all (insert p.0 p.1 m) ps

module _ {K V : Type 0} (eq : K → K → Bool) where
  insert_absent :
      (p : K × V) (m : List (K × V))
      → All (λ (q : K × V). eq q.0 p.0 ≡ false) m
      → insert eq p.0 p.1 m ≡ m ++ (p ∷ [])
  unfolding insert
  insert_absent p [] h = refl
  insert_absent p (q ∷ m) h = rw h.0 (ap (◌∷◌ q) (insert_absent p m h.1))

  All-middle :
      (P : K × V → Type 0) (m : List (K × V)) (p : K × V) (ps : List (K × V))
      → All P (m ++ (p ∷ ps))
      → P p
  All-middle P [] p ps h = h.0
  All-middle P (q ∷ m) p ps h = All-middle P m p ps h.1

  absent_of_Distinct :
      (m : List (K × V)) (p : K × V) (ps : List (K × V))
      → Distinct eq (m ++ (p ∷ ps))
      → All (λ (q : K × V). eq q.0 p.0 ≡ false) m
  absent_of_Distinct [] p ps h = tt
  absent_of_Distinct (q ∷ m) p ps h =
      (All-middle (λ r. eq q.0 r.0 ≡ false) m p ps h.0, absent_of_Distinct m p ps h.1)

  -- Entries whose keys are new and differ are kept in order.
  pub insert_all-Distinct :
      (m ps : List (K × V)) → Distinct eq (m ++ ps) → insert_all eq m ps ≡ m ++ ps
  unfolding insert_all
  insert_all-Distinct m [] h = rw append-nil
  insert_all-Distinct m (p ∷ ps) h =
      rw (insert_absent p m (absent_of_Distinct m p ps h))
        (insert_all-Distinct (m ++ (p ∷ [])) ps (rw append_assoc h) ∙ append_assoc m (p ∷ []) ps)
