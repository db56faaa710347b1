-- ===== src/Base/Assoc.antt =====
-- Go's `map[string]V` as an association list in some order: a read of a missing key, a write that
-- replaces, and `delete`. A loop over a map runs in the order of the list, so that a theorem over
-- every list covers every iteration order.
use Prim.Native.Nat.{suc, ◌≤◌}
use Prim.Native.String.{String}
use mathlib.Core.Path.{◌≡◌, refl}
use mathlib.Core.Bool.{Bool, true, false}
use mathlib.Core.Option.{Option, none, some}
use mathlib.Core.List.{List, [], ◌∷◌}
use native.Mathlib.Omega.{arith}
use text.Mathlib.Text.{◌==◌ as str_eq}
use text.Mathlib.TextEquality.{eq_iff}
use autostream_discord_bot.Base.Tests.{if◌then◌else◌, is_some}
use autostream_discord_bot.Base.Lists.{length, keep}

module _ {ℓ} {V : Type ℓ} where
  unfoldable pub lookup : String → List (String × V) → Option V
  lookup key [] = none
  lookup key ((first, value) ∷ rest) = if str_eq first key then some value else lookup key rest

  -- `m[key] = new`.
  unfoldable pub insert : String → V → List (String × V) → List (String × V)
  insert key new [] = (key, new) ∷ []
  insert key new ((first, value) ∷ rest) =
      if str_eq first key then (key, new) ∷ rest else (first, value) ∷ insert key new rest

  unfoldable pub delete : String → List (String × V) → List (String × V)
  delete key [] = []
  delete key ((first, value) ∷ rest) =
      if str_eq first key then delete key rest else (first, value) ∷ delete key rest

  -- `m[k]`, with the zero value of the type for a missing key.
  abbrev pub get_or : String → V → List (String × V) → V
  get_or k d m = elim (lookup k m) [ none ↦ d | some v ↦ v ]

  abbrev pub has_key : String → List (String × V) → Bool
  has_key k m = is_some (lookup k m)

  -- A read after a write.
  pub lookup-insert :
      (key other : String) (new : V) (m : List (String × V))
      → lookup other (insert key new m) ≡ (if str_eq key other then some new else lookup other m)
  unfolding lookup insert
  lookup-insert key other new [] = refl
  lookup-insert key other new ((first, value) ∷ rest) = ground (
    arith,
    lookup-insert key other new rest,
    eq_iff first key,
    eq_iff first other,
    eq_iff key other,
  )

  pub lookup-delete :
      (k j : String) (m : List (String × V))
      → lookup j (delete k m) ≡ (if str_eq k j then none else lookup j m)
  unfolding lookup delete
  lookup-delete k j [] = ground arith
  lookup-delete k j ((i, w) ∷ m) =
      ground (arith, eq_iff k j, eq_iff i k, eq_iff i j, lookup-delete k j m)

  pub lookup-insert_self :
      (k : String) (v : V) (m : List (String × V)) → lookup k (insert k v m) ≡ some v
  lookup-insert_self k v m = ground (arith, lookup-insert k k v m, eq_iff k k)

  pub lookup-delete_self : (k : String) (m : List (String × V)) → lookup k (delete k m) ≡ none
  lookup-delete_self k m = ground (arith, lookup-delete k k m, eq_iff k k)

  pub length-delete-le : (k : String) (m : List (String × V)) → length (delete k m) ≤ length m
  unfolding delete
  length-delete-le k [] = omega arith
  length-delete-le k ((j, w) ∷ m) = ground (arith, length-delete-le k m)

  -- A key that is there is really taken out.
  pub length-delete-lt :
      (k : String) (m : List (String × V)) (v : V)
      → lookup k m ≡ some v
      → suc (length (delete k m)) ≤ length m
  unfolding lookup delete
  length-delete-lt k [] v h = cc
  length-delete-lt k ((j, w) ∷ m) v h = ground (arith, length-delete-le k m, length-delete-lt k m v)

  -- A write adds one entry, or none if the key is there.
  pub length-insert :
      (k : String) (v : V) (m : List (String × V))
      → length (insert k v m) ≡ (if has_key k m then length m else suc (length m))
  unfolding lookup insert
  length-insert k v [] = refl
  length-insert k v ((j, w) ∷ m) = ground (arith, length-insert k v m)

module _ {ℓ} {V : Type ℓ} where
  -- No key stands twice: the list is a map.
  abbrev pub IsMap : List (String × V) → Type 0
  IsMap [] = Unit
  IsMap ((k, v) ∷ m) = (has_key k m ≡ false) × IsMap m

  has_key-insert_other :
      (k j : String) (v : V) (m : List (String × V))
      → str_eq k j ≡ false
      → has_key j (insert k v m) ≡ has_key j m
  has_key-insert_other k j v m h = ground (arith, lookup-insert k j v m)

  pub insert-IsMap : (k : String) (v : V) (m : List (String × V)) → IsMap m → IsMap (insert k v m)
  unfolding insert lookup
  insert-IsMap k v [] h = ground arith
  insert-IsMap k v ((j, w) ∷ m) h =
      ground (arith, eq_iff j k, eq_iff k j, insert-IsMap k v m h.1, has_key-insert_other k j v m)

  has_key-delete_absent :
      (k j : String) (m : List (String × V)) → has_key j m ≡ false → has_key j (delete k m) ≡ false
  has_key-delete_absent k j m h = ground (arith, lookup-delete k j m)

  pub delete-IsMap : (k : String) (m : List (String × V)) → IsMap m → IsMap (delete k m)
  unfolding delete
  delete-IsMap k [] h = tt
  delete-IsMap k ((j, w) ∷ m) h =
      ground (arith, delete-IsMap k m h.1, has_key-delete_absent k j m h.0)

module _ {ℓ} {V : Type ℓ} where
  pub lookup-head :
      (k j : String) (v : V) (m : List (String × V)) → k ≡ j → lookup k ((j, v) ∷ m) ≡ some v
  unfolding lookup
  lookup-head k j v m h = ground (arith, eq_iff j k)

  pub lookup-tail :
      (j k : String) (w v : V) (m : List (String × V))
      → IsMap ((j, w) ∷ m)
      → lookup k m ≡ some v
      → lookup k ((j, w) ∷ m) ≡ some v
  unfolding lookup
  lookup-tail j k w v m u e = ground (arith, eq_iff j k)

module _ {ℓ} {V : Type ℓ} where
  pub has_key-insert :
      (k j : String) (v : V) (m : List (String × V))
      → has_key j (insert k v m) ≡ (if str_eq k j then true else has_key j m)
  has_key-insert k j v m = ground (arith, lookup-insert k j v m)

  pub has_key-delete :
      (k j : String) (m : List (String × V))
      → has_key j (delete k m) ≡ (if str_eq k j then false else has_key j m)
  has_key-delete k j m = ground (arith, lookup-delete k j m)

  pub get_or-insert :
      (k j : String) (v d : V) (m : List (String × V))
      → get_or j d (insert k v m) ≡ (if str_eq k j then v else get_or j d m)
  get_or-insert k j v d m = ground (arith, lookup-insert k j v m)

  pub get_or-delete :
      (k j : String) (d : V) (m : List (String × V))
      → get_or j d (delete k m) ≡ (if str_eq k j then d else get_or j d m)
  get_or-delete k j d m = ground (arith, lookup-delete k j m)

module _ {ℓ} {V : Type ℓ} (p : String × V → Bool) where
  pub lookup-keep :
      (k : String) (v : V) (m : List (String × V)) → lookup k (keep p m) ≡ some v → p (k, v) ≡ true
  unfolding lookup
  lookup-keep k v [] h = cc
  lookup-keep k v ((j, w) ∷ m) h = ground (arith, eq_iff j k, lookup-keep k v m)

  pub lookup-kept :
      (k : String) (v : V) (m : List (String × V))
      → lookup k m ≡ some v
      → p (k, v) ≡ true
      → lookup k (keep p m) ≡ some v
  unfolding lookup
  lookup-kept k v [] h e = h
  lookup-kept k v ((j, w) ∷ m) h e = ground (arith, eq_iff j k, lookup-kept k v m)

  pub has_key-keep_absent :
      (k : String) (m : List (String × V)) → has_key k m ≡ false → has_key k (keep p m) ≡ false
  unfolding lookup
  has_key-keep_absent k [] h = h
  has_key-keep_absent k ((j, w) ∷ m) h = ground (arith, has_key-keep_absent k m)

  pub keep-IsMap : (m : List (String × V)) → IsMap m → IsMap (keep p m)
  keep-IsMap [] h = tt
  keep-IsMap ((j, w) ∷ m) h = ground (arith, keep-IsMap m h.1, has_key-keep_absent j m h.0)

  -- What is kept was there with the same value.
  pub lookup-keep_was :
      (k : String) (v : V) (m : List (String × V))
      → IsMap m
      → lookup k (keep p m) ≡ some v
      → lookup k m ≡ some v
  unfolding lookup
  lookup-keep_was k v [] u h = h
  lookup-keep_was k v ((j, w) ∷ m) u h =
      ground (arith, eq_iff j k, lookup-keep_was k v m u.1, has_key-keep_absent j m u.0)

pub str_eq_refl : (k : String) → str_eq k k ≡ true
str_eq_refl k = (eq_iff k k).1 refl
