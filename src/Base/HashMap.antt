-- ===== src/Base/HashMap.antt =====
-- A hash map as an association list. Its clients go by the laws; only tests unfold it.
use mathlib.Core.Path.{◌≡◌, refl}
use mathlib.Core.Logic.{ite}
use mathlib.Core.Option.{Option, none, some}
use mathlib.Core.List.{List, [], ◌∷◌}
use native.Mathlib.Omega.{arith}

abbrev pub HashMap : Type 0 → Type 0 → Type 0
HashMap K V = List (K × V)

module _ {K V : Type 0} (dec : Discrete K) where
  unfoldable pub get : K → HashMap K V → Option V
  get k [] = none
  get k ((j, v) ∷ m) = ite (dec k j) (some v) (get k m)

  unfoldable pub insert : K → V → HashMap K V → HashMap K V
  insert k v [] = (k, v) ∷ []
  insert k v ((j, w) ∷ m) = ite (dec k j) ((k, v) ∷ m) ((j, w) ∷ insert k v m)

  unfoldable pub remove : K → HashMap K V → HashMap K V
  remove k [] = []
  remove k ((j, w) ∷ m) = let rest = remove k m in ite (dec k j) rest ((j, w) ∷ rest)

  -- No key is stored twice.
  abbrev pub NodupKeys : HashMap K V → Type 0
  NodupKeys [] = Unit
  NodupKeys ((k, _) ∷ m) = (get k m ≡ none) × NodupKeys m

  pub get-insert :
      (j k : K) (v : V) (m : HashMap K V) → get j (insert k v m) ≡ ite (dec j k) (some v) (get j m)
  unfolding get insert
  get-insert j k v [] = ground arith
  get-insert j k v (e ∷ m) = ground (arith, get-insert j k v m)

  pub get-remove : (j k : K) (m : HashMap K V) → get j (remove k m) ≡ ite (dec j k) none (get j m)
  unfolding get remove
  get-remove j k [] = ground arith
  get-remove j k (e ∷ m) = ground (arith, get-remove j k m)

  pub insert-NodupKeys : (k : K) (v : V) (m : HashMap K V) → NodupKeys m → NodupKeys (insert k v m)
  unfolding get insert
  insert-NodupKeys k v [] u = (refl, tt)
  insert-NodupKeys k v ((j, w) ∷ m) (fresh, u) =
      ground (arith, insert-NodupKeys k v m u, get-insert j k v m)

  pub remove-NodupKeys : (k : K) (m : HashMap K V) → NodupKeys m → NodupKeys (remove k m)
  unfolding get remove
  remove-NodupKeys k [] u = tt
  remove-NodupKeys k ((j, w) ∷ m) (fresh, u) =
      ground (arith, remove-NodupKeys k m u, get-remove j k m)

  pub get-cons :
      (j k : K) (v : V) (m : HashMap K V) → get j ((k, v) ∷ m) ≡ ite (dec j k) (some v) (get j m)
  unfolding get
  get-cons j k v m = refl

  pub get-nil : (j : K) → get j [] ≡ none
  unfolding get
  get-nil j = refl

  -- What the rest of a map holds, the map holds, if the first key is not stored again.
  pub get-cons_rest :
      (j k : K) (v w : V) (m : HashMap K V)
      → get k m ≡ none
      → get j m ≡ some v
      → get j ((k, w) ∷ m) ≡ some v
  get-cons_rest j k v w m fresh h = ground (arith, get-cons j k w m)

  -- A removal passes an insertion of another key, and any removal.
  pub insert-remove_comm :
      (j k : K) (v : V) (m : HashMap K V)
      → (j ≡ k → ⊥)
      → insert k v (remove j m) ≡ remove j (insert k v m)
  unfolding insert remove
  insert-remove_comm j k v [] ne = ground arith
  insert-remove_comm j k v ((i, w) ∷ m) ne = ground (arith, insert-remove_comm j k v m ne)

  pub remove-remove_comm :
      (j k : K) (m : HashMap K V) → remove k (remove j m) ≡ remove j (remove k m)
  unfolding remove
  remove-remove_comm j k [] = ground arith
  remove-remove_comm j k ((i, w) ∷ m) = ground (arith, remove-remove_comm j k m)
