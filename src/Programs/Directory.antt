-- ===== src/Programs/Directory.antt =====
-- The list of servers as a finite map from identifiers to objects (programs/loader.go, `allPrograms`).
use pufferd.Common.{
  ℕ, zero, suc, ◌≤◌, ◌<◌, String, List, [], ◌∷◌, ◌++◌, true, false, Option, none, some, ◌≡◌, refl,
  arith, ap, sym, ◌∙◌, ◌==◌, eq_iff, get_elem?, set, length, All, Bool-cases, inl, inr,
}
use pufferd.Types.{Program}
use pufferd.Programs.{has_id, find, forget}
use pufferd.Programs.Cache.{Absent, IsUnique}

abbrev pub or_else : Option ℕ → Option ℕ → Option ℕ
or_else none y = y
or_else (some p) y = some p

-- The objects of the first list are in the second at their places, with their identifiers.
abbrev pub Extends : List Program → List Program → Type 0
Extends [] later = Unit
Extends (x ∷ xs) [] = true ≡ false
Extends (x ∷ xs) (y ∷ ys) = (y.identifier ≡ x.identifier) × Extends xs ys

pub Extends-self : (xs : List Program) → Extends xs xs
Extends-self [] = tt
Extends-self (x ∷ xs) = (refl, Extends-self xs)

pub Extends-append : (xs ys zs : List Program) → Extends xs ys → Extends xs (ys ++ zs)
Extends-append [] ys zs h = tt
Extends-append (x ∷ xs) [] zs h = cc
Extends-append (x ∷ xs) (y ∷ ys) zs (h, hs) = (h, Extends-append xs ys zs hs)

-- An object may become one of the same identifier.
abbrev pub SameName : List Program → ℕ → Program → Type 0
SameName xs p new = (old : Program) → get_elem? xs p ≡ some old → new.identifier ≡ old.identifier

pub Extends-set :
    (xs ys : List Program) (p : ℕ) (new : Program)
    → SameName xs p new
    → Extends xs ys
    → Extends xs (set ys p new)
Extends-set [] ys p new named h = tt
Extends-set (x ∷ xs) [] p new named h = cc
Extends-set (x ∷ xs) (y ∷ ys) zero new named (h, hs) = (named x refl, hs)
Extends-set (x ∷ xs) (y ∷ ys) (suc p) new named (h, hs) = (h, Extends-set xs ys p new named hs)

pub Extends-get :
    (xs ys : List Program) (p : ℕ) {old new : Program}
    → Extends xs ys
    → get_elem? xs p ≡ some old
    → get_elem? ys p ≡ some new
    → new.identifier ≡ old.identifier
Extends-get [] ys p h a b = cc
Extends-get (x ∷ xs) [] p h a b = cc
Extends-get (x ∷ xs) (y ∷ ys) zero (h, hs) a b = ground arith
Extends-get (x ∷ xs) (y ∷ ys) (suc p) (h, hs) a b = Extends-get xs ys p hs a b

has_id-Extends :
    (xs ys : List Program) (p : ℕ) (id : String)
    → Extends xs ys
    → p < length xs
    → has_id id (get_elem? ys p) ≡ has_id id (get_elem? xs p)
has_id-Extends [] ys p id h lt = absurd (omega arith)
has_id-Extends (x ∷ xs) [] p id h lt = cc
has_id-Extends (x ∷ xs) (y ∷ ys) zero id (h, hs) lt = ap (λ name. name == id) h
has_id-Extends (x ∷ xs) (y ∷ ys) (suc p) id (h, hs) lt = has_id-Extends xs ys p id hs (omega arith)

length-Extends : (xs ys : List Program) → Extends xs ys → length xs ≤ length ys
length-Extends [] ys h = omega arith
length-Extends (x ∷ xs) [] h = cc
length-Extends (x ∷ xs) (y ∷ ys) (h, hs) = omega (arith, length-Extends xs ys hs)

-- Every pointer of the list is to an object.
abbrev pub Inside : List Program → List ℕ → Type 0
Inside xs ps = All (λ p. p < length xs) ps

Inside_later : (n m : ℕ) (ps : List ℕ) → n ≤ m → All (λ p. p < n) ps → All (λ p. p < m) ps
Inside_later n m [] le h = tt
Inside_later n m (p ∷ ps) le (h, hs) = (omega arith, Inside_later n m ps le hs)

module _ (xs ys : List Program) (e : Extends xs ys) where
  pub Inside-Extends : (ps : List ℕ) → Inside xs ps → Inside ys ps
  Inside-Extends ps h = Inside_later _ _ ps (length-Extends xs ys e) h

  pub find-Extends : (id : String) (ps : List ℕ) → Inside xs ps → find ys id ps ≡ find xs id ps
  unfolding find
  find-Extends id [] h = refl
  find-Extends id (p ∷ ps) (h, hs) = rw (has_id-Extends xs ys p id e h, find-Extends id ps hs) refl

  pub forget-Extends :
      (id : String) (ps : List ℕ) → Inside xs ps → forget ys id ps ≡ forget xs id ps
  unfolding forget
  forget-Extends id [] h = refl
  forget-Extends id (p ∷ ps) (h, hs) =
      rw (has_id-Extends xs ys p id e h, forget-Extends id ps hs) refl

  Absent-Extends : (id : String) (ps : List ℕ) → Inside xs ps → Absent xs id ps → Absent ys id ps
  Absent-Extends id [] h a = tt
  Absent-Extends id (p ∷ ps) (h, hs) (a, more) =
      (has_id-Extends xs ys p id e h ∙ a, Absent-Extends id ps hs more)

  pub IsUnique-Extends : (ps : List ℕ) → Inside xs ps → IsUnique xs ps → IsUnique ys ps
  IsUnique-Extends [] h u = tt
  IsUnique-Extends (p ∷ ps) (h, hs) (u, us) = (
    λ id hit. Absent-Extends id ps hs (u id (sym (has_id-Extends xs ys p id e h) ∙ hit)),
    IsUnique-Extends ps hs us,
  )

module _ (xs : List Program) where
  pub Inside-forget : (id : String) (ps : List ℕ) → Inside xs ps → Inside xs (forget xs id ps)
  unfolding forget
  Inside-forget id [] h = tt
  Inside-forget id (p ∷ ps) (h, hs) = elim (Bool-cases (has_id id (get_elem? xs p))) [
    | inl hit ↦ rw hit hs
    | inr miss ↦ rw miss (h, Inside-forget id ps hs)
  ]

  Absent-forget : (id j : String) (ps : List ℕ) → Absent xs j ps → Absent xs j (forget xs id ps)
  unfolding forget
  Absent-forget id j [] a = tt
  Absent-forget id j (p ∷ ps) (a, more) = elim (Bool-cases (has_id id (get_elem? xs p))) [
    | inl hit ↦ rw hit more
    | inr miss ↦ rw miss (a, Absent-forget id j ps more)
  ]

  pub IsUnique-forget : (id : String) (ps : List ℕ) → IsUnique xs ps → IsUnique xs (forget xs id ps)
  unfolding forget
  IsUnique-forget id [] u = tt
  IsUnique-forget id (p ∷ ps) (u, us) = elim (Bool-cases (has_id id (get_elem? xs p))) [
    | inl hit ↦ rw hit us
    | inr miss ↦ rw miss (λ j h. Absent-forget id j ps (u j h), IsUnique-forget id ps us)
  ]

  Absent-append :
      (id : String) (ps qs : List ℕ) → Absent xs id ps → Absent xs id qs → Absent xs id (ps ++ qs)
  Absent-append id [] qs a b = b
  Absent-append id (p ∷ ps) qs (a, more) b = (a, Absent-append id ps qs more b)

  other_name :
      (name j : String) (x : Option Program)
      → has_id name x ≡ false
      → has_id j x ≡ true
      → (name == j) ≡ false
  other_name name j none h k = cc
  other_name name j (some program) h k =
      ground (arith, eq_iff program.identifier name, eq_iff program.identifier j, eq_iff name j)

  -- A server that is not in the list may be added to it.
  pub IsUnique-append :
      (ps : List ℕ) (q : ℕ) (program : Program)
      → get_elem? xs q ≡ some program
      → find xs program.identifier ps ≡ none
      → IsUnique xs ps
      → IsUnique xs (ps ++ q ∷ [])
  unfolding find
  IsUnique-append [] q program there fresh u = (λ _ _. tt, tt)
  IsUnique-append (p ∷ ps) q program there fresh (u, us) =
      elim (Bool-cases (has_id program.identifier (get_elem? xs p))) [
        | inl hit ↦ absurd (ground arith)
        | inr miss ↦ (
          λ j h.
              Absent-append j ps (q ∷ []) (u j h)
                (ap (has_id j) there ∙ other_name _ j (get_elem? xs p) miss h, tt),
          IsUnique-append ps q program there (ground arith) us,
        )
      ]

  -- What is found in a list with one server more.
  pub find-append :
      (id : String) (ps : List ℕ) (q : ℕ)
      → find xs id (ps ++ q ∷ []) ≡ or_else (find xs id ps) (find xs id (q ∷ []))
  unfolding find
  find-append id [] q = refl
  find-append id (p ∷ ps) q = elim (Bool-cases (has_id id (get_elem? xs p))) [
    | inl hit ↦ rw hit refl
    | inr miss ↦ rw miss (find-append id ps q)
  ]

  pub find-Inside :
      (id : String) (ps : List ℕ) {p : ℕ} → Inside xs ps → find xs id ps ≡ some p → p < length xs
  unfolding find
  find-Inside id [] h f = cc
  find-Inside id (q ∷ ps) (h, hs) f = elim (Bool-cases (has_id id (get_elem? xs q))) [
    | inl hit ↦ ground arith
    | inr miss ↦ find-Inside id ps hs (ground arith)
  ]
