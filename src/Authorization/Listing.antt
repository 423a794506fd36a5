-- ===== src/Authorization/Listing.antt =====
-- internal/authorization/credentials.go and internal/environment/manager.go: the listing of the
-- services in a map, sorted by `sort.Slice` on their names.
use tearenv.Common.{
  Bool, true, false, ◌&&◌, ◌||◌, Text, text_eq, text_eq_iff, Map, lookup, insert, Option, none,
  some, option_or, List, [], ◌∷◌, ◌==◌, ltb, if◌then◌else◌, ◌≡◌, refl, arith, All, All-mono,
  Bool-cases, inl, inr,
}
use tearenv.Authorization.{Service}

-- `left < right` of texts.
unfoldable pub text_lt : Text → Text → Bool
text_lt [] [] = false
text_lt [] (c ∷ t) = true
text_lt (b ∷ s) [] = false
text_lt (b ∷ s) (c ∷ t) = ltb b c || b == c && text_lt s t

text_lt_irrefl : (s : Text) → text_lt s s ≡ false
unfolding text_lt
text_lt_irrefl [] = refl
text_lt_irrefl (b ∷ s) = ground (arith, text_lt_irrefl s)

-- Behind the services of smaller names.
unfoldable pub insert_service : Service → List Service → List Service
insert_service s [] = s ∷ []
insert_service s (t ∷ ts) =
    let rest = insert_service s ts in if text_lt t.name s.name then t ∷ rest else s ∷ t ∷ ts

-- The sorted values of a map.
unfoldable pub sorted_values : Map Service → List Service
unfolding insert_service
sorted_values [] = []
sorted_values ((k, s) ∷ m) = insert_service s (sorted_values m)

-- The first service of a name.
unfoldable pub find_named : Text → List Service → Option Service
find_named name [] = none
find_named name (s ∷ ss) = if text_eq s.name name then some s else find_named name ss

-- Every service is stored under its name.
unfoldable pub IsKeyed : Map Service → Type 0
IsKeyed m = All (λ (e : Text × Service). e.1.name ≡ e.0) m

find_named-insert_service :
    (name : Text) (s : Service) (ss : List Service)
    → find_named name (insert_service s ss)
      ≡ (if text_eq s.name name then some s else find_named name ss)
unfolding find_named insert_service
find_named-insert_service name s [] = refl
find_named-insert_service name s (t ∷ ts) = ground (
  arith,
  find_named-insert_service name s ts,
  text_lt_irrefl name,
  text_eq_iff (s.name) name,
  text_eq_iff (t.name) name,
)

-- The list holds what the map holds.
pub find_named-sorted_values :
    (name : Text) (m : Map Service) → IsKeyed m → find_named name (sorted_values m) ≡ lookup name m
unfolding sorted_values find_named lookup IsKeyed
find_named-sorted_values name [] h = refl
find_named-sorted_values name ((k, s) ∷ m) (same, h) =
    ground
      (arith, find_named-insert_service name s (sorted_values m), find_named-sorted_values name m h)

abbrev IsBelow : Text → Service → Type 0
IsBelow n t = text_lt t.name n ≡ false

-- Each name comes before those of the services behind it, or is equal to them.
unfoldable pub IsSorted : List Service → Type 0
IsSorted [] = Unit {0}
IsSorted (s ∷ ss) = All (IsBelow s.name) ss × IsSorted ss

pub insert-IsKeyed :
    (k : Text) (s : Service) (m : Map Service) → s.name ≡ k → IsKeyed m → IsKeyed (insert k s m)
unfolding insert IsKeyed
insert-IsKeyed k s [] same h = (same, tt)
insert-IsKeyed k s ((j, t) ∷ m) same (first, h) = elim (Bool-cases (text_eq j k)) [
  | inl equal ↦ rw equal (same, h)
  | inr differs ↦ rw differs (first, insert-IsKeyed k s m same h)
]

text_lt_asym : (s t : Text) → text_lt s t ≡ true → text_lt t s ≡ false
unfolding text_lt
text_lt_asym [] [] h = refl
text_lt_asym [] (c ∷ t) h = refl
text_lt_asym (b ∷ s) [] h = cc
text_lt_asym (b ∷ s) (c ∷ t) h = ground (arith, text_lt_asym s t)

text_lt_trans : (r s t : Text) → text_lt s r ≡ false → text_lt t s ≡ false → text_lt t r ≡ false
unfolding text_lt
text_lt_trans [] s [] h k = refl
text_lt_trans [] [] (c ∷ t) h k = refl
text_lt_trans [] (b ∷ s) (c ∷ t) h k = refl
text_lt_trans (a ∷ r) [] t h k = cc
text_lt_trans (a ∷ r) (b ∷ s) [] h k = cc
text_lt_trans (a ∷ r) (b ∷ s) (c ∷ t) h k = ground (arith, text_lt_trans r s t)

-- What lies above the inserted service and above the others lies above them all.
insert_service-All :
    (n : Text) (s : Service) (ss : List Service)
    → IsBelow n s
    → All (IsBelow n) ss
    → All (IsBelow n) (insert_service s ss)
unfolding insert_service
insert_service-All n s [] h k = (h, tt)
insert_service-All n s (t ∷ ts) h (k, ks) = elim (Bool-cases (text_lt (t.name) (s.name))) [
  | inl below ↦ rw below (k, insert_service-All n s ts h ks)
  | inr above ↦ rw above (h, (k, ks))
]

insert_service-IsSorted :
    (s : Service) (ss : List Service) → IsSorted ss → IsSorted (insert_service s ss)
unfolding insert_service IsSorted
insert_service-IsSorted s [] h = (tt, tt)
insert_service-IsSorted s (t ∷ ts) (k, h) = elim (Bool-cases (text_lt (t.name) (s.name))) [
  | inl below ↦ rw below (
    insert_service-All (t.name) s ts (text_lt_asym (t.name) (s.name) below) k,
    insert_service-IsSorted s ts h,
  )
  | inr above ↦ rw above (
    (
      above,
      All-mono (IsBelow (t.name)) (IsBelow (s.name)) ts
          (λ u. text_lt_trans (s.name) (t.name) (u.name) above) k,
    ),
    (k, h),
  )
]

pub sorted_values-IsSorted : (m : Map Service) → IsSorted (sorted_values m)
unfolding sorted_values IsSorted
sorted_values-IsSorted [] = tt
sorted_values-IsSorted ((k, s) ∷ m) =
    insert_service-IsSorted s (sorted_values m) (sorted_values-IsSorted m)

-- Every service of every identity is stored under its name.
unfoldable pub IsManaged : Map (Map Service) → Type 0
IsManaged m = All (λ (e : Text × Map Service). IsKeyed (e.1)) m

pub lookup-IsManaged :
    (identity : Text) (m : Map (Map Service))
    → IsManaged m
    → IsKeyed (option_or (lookup identity m) [])
unfolding IsManaged lookup IsKeyed
lookup-IsManaged identity [] h = tt
lookup-IsManaged identity ((j, own) ∷ m) (first, h) = elim (Bool-cases (text_eq j identity)) [
  | inl same ↦ rw same first
  | inr differs ↦ rw differs (lookup-IsManaged identity m h)
]

pub insert-IsManaged :
    (identity : Text) (own : Map Service) (m : Map (Map Service))
    → IsKeyed own
    → IsManaged m
    → IsManaged (insert identity own m)
unfolding IsManaged insert
insert-IsManaged identity own [] k h = (k, tt)
insert-IsManaged identity own ((j, was) ∷ m) k (first, h) = elim (Bool-cases (text_eq j identity)) [
  | inl same ↦ rw same (k, h)
  | inr differs ↦ rw differs (first, insert-IsManaged identity own m k h)
]
