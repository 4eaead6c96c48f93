-- ===== src/Migrate/Entries.antt =====
-- What becomes of the operations of a definition.
use pufferd.Common.{
  String, List, [], ◌∷◌, false, Option, none, some, ◌≡◌, arith, ◌==◌, eq_iff, lookup, refl, sym,
  subst,
}
use mathlib.Core.Option.{some-injective}
use pufferd.Types.{Value, text}
use pufferd.Migrate.Convert.{
  ◌>>=◌, Entries, Typed, as_string, without_type, convert_entry, convert_entries,
}

-- An operation as it was, as far as reading it by keys tells.
abbrev pub original : Typed → Entries
original typed = ("type", text typed.kind) ∷ typed.metadata

lookup-without_type :
    (key : String) (v : Entries)
    → ("type" == key) ≡ false
    → lookup key (without_type v) ≡ lookup key v
unfolding without_type lookup
lookup-without_type key [] h = refl
lookup-without_type key ((i, o) ∷ rest) h =
    ground (arith, lookup-without_type key rest h, eq_iff i "type", eq_iff i key, eq_iff "type" key)

as_string-text : (x : Option Value) (kind : String) → as_string x ≡ some kind → x ≡ some (text kind)
unfolding as_string
as_string-text none kind h = cc
as_string-text (some (text s)) kind h = cc
as_string-text (some (Value.texts s)) kind h = cc
as_string-text (some (Value.text_map s)) kind h = cc
as_string-text (some (Value.items s)) kind h = cc
as_string-text (some (Value.truth s)) kind h = cc
as_string-text (some (Value.opaque s)) kind h = cc

typed-entry :
    (v : Entries) (x : Option String) (typed : Typed)
    → (elim x [
      | none ↦ none
      | some kind ↦ some (record { kind = kind; metadata = without_type v })
    ])
      ≡ some typed
    → (x ≡ some typed.kind) × (typed.metadata ≡ without_type v)
typed-entry v none typed h = cc
typed-entry v (some kind) typed h = ground arith

convert_entry-lookup :
    (v : Entries) (typed : Typed) (key : String)
    → convert_entry v ≡ some typed
    → lookup key (original typed) ≡ lookup key v
unfolding convert_entry lookup
convert_entry-lookup v typed key h =
    let (named, plain) = typed-entry v (as_string (lookup "type" v)) typed h in
    ground (
      arith,
      as_string-text (lookup "type" v) typed.kind named,
      lookup-without_type key v,
      plain,
      eq_iff "type" key,
    )

-- Operations and their migrated forms, one for one.
abbrev pub Agree : List Entries → List Typed → Type 0
Agree [] [] = Unit
Agree (v ∷ vs) (t ∷ ts) = ((key : String) → lookup key (original t) ≡ lookup key v) × Agree vs ts
Agree _ _ = ⊥

both :
    (x : Option Typed) (y : Option (List Typed)) (typed : List Typed)
    → (x >>= λ t. y >>= λ ts. some (t ∷ ts)) ≡ some typed
    → (t : Typed) × (ts : List Typed) × (x ≡ some t) × (y ≡ some ts) × (typed ≡ t ∷ ts)
both none y typed h = cc
both (some t) none typed h = cc
both (some t) (some ts) typed h = (t, ts, refl, refl, cc)

-- The operations of a section, in their order, lose nothing when they are migrated: with an operation's
-- type and its metadata put together again, every key has the value that it had.
pub convert_entries-Agree :
    (vs : List Entries) (typed : List Typed) → convert_entries vs ≡ some typed → Agree vs typed
unfolding convert_entries
convert_entries-Agree [] typed h = subst (Agree []) (some-injective [] typed h) tt
convert_entries-Agree (v ∷ vs) typed h =
    let (t, ts, one, more, e) = both (convert_entry v) (convert_entries vs) typed h in
    subst (Agree (v ∷ vs)) (sym e)
      ((λ key. convert_entry-lookup v t key one), convert_entries-Agree vs ts more)
