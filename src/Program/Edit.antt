-- ===== src/Program/Edit.antt =====
-- What `Edit` does to the variables of a server.
use pufferd.Common.{
  eq_same, String, Bool, List, [], ◌∷◌, true, false, Option, none, some, if◌then◌else◌, not, ◌&&◌,
  ◌==◌, lookup, ◌≡◌, refl, lookup-insert, eq_iff, arith, eq_refl, Bool-cases, inl, inr, ◌||◌, ap,
  ap₂, sym, ◌∙◌,
}
use pufferd.Types.{Value, Variable}
use pufferd.Program.{kept, edit_variable, edit_variables}

-- What one edit of a key does to the key's own entry.
abbrev pub settle : Bool → Variable → Option Variable → Option Variable
settle override_user v entry =
    let elem = kept v entry in
    if not elem.user_editable && not override_user
    then entry
    else some (record elem { value = v.value })

-- The edits as they concern one key.
abbrev pub edit_at : Bool → String → List (String × Variable) → Option Variable → Option Variable
edit_at override_user k [] entry = entry
edit_at override_user k ((j, v) ∷ edits) entry =
    edit_at override_user k edits (if j == k then settle override_user v entry else entry)

lookup-edit_variable :
    (override_user : Bool) (k j : String) (v : Variable) (m : List (String × Variable))
    → lookup k (edit_variable override_user (j, v) m)
      ≡ (if j == k then settle override_user v (lookup k m) else lookup k m)
unfolding edit_variable
lookup-edit_variable override_user k j v m =
    ground
      (arith, eq_iff j k, lookup-insert j k (record (kept v (lookup j m)) { value = v.value }) m)

-- Behind the loop over a map, a key's entry is what the edits of that key make of its old entry.
pub lookup-edit_variables :
    (override_user : Bool) (k : String) (edits m : List (String × Variable))
    → lookup k (edit_variables override_user edits m) ≡ edit_at override_user k edits (lookup k m)
unfolding edit_variables
lookup-edit_variables override_user k [] m = refl
lookup-edit_variables override_user k ((j, v) ∷ edits) m = ground (
  arith,
  lookup-edit_variable override_user k j v m,
  lookup-edit_variables override_user k edits (edit_variable override_user (j, v) m),
)

edit_at_protected :
    (k : String) (edits : List (String × Variable)) (v : Variable)
    → v.user_editable ≡ false
    → edit_at false k edits (some v) ≡ some v
edit_at_protected k [] v h = refl
edit_at_protected k ((j, u) ∷ edits) v h = ground (arith, edit_at_protected k edits v h)

-- An edit without the administrator's override never changes a variable that is not marked as
-- editable by the user.
pub edit_protected :
    (k : String) (edits m : List (String × Variable)) (v : Variable)
    → lookup k m ≡ some v
    → v.user_editable ≡ false
    → lookup k (edit_variables false edits m) ≡ some v
edit_protected k edits m v at_k h =
    ground (arith, lookup-edit_variables false k edits m, edit_at_protected k edits v h)

edit_at_metadata :
    (override_user : Bool) (k : String) (edits : List (String × Variable)) (v : Variable)
    → (x : Value) × (edit_at override_user k edits (some v) ≡ some (record v { value = x }))
edit_at_metadata override_user k [] v = (v.value, refl)
edit_at_metadata override_user k ((j, u) ∷ edits) v =
    let (x, e) = edit_at_metadata override_user k edits (record v { value = u.value }) in
    let (y, d) = edit_at_metadata override_user k edits v in
    elim (Bool-cases (j == k && (v.user_editable || override_user))) [
      | inl hit ↦ (x, ground arith)
      | inr miss ↦ (y, ground arith)
    ]

-- Of a variable that is there, an edit by anybody changes at most the value: it stays, with its
-- label, description and its marks as required and as editable.
pub edit_keeps_metadata :
    (override_user : Bool) (k : String) (edits m : List (String × Variable)) (v : Variable)
    → lookup k m ≡ some v
    → (x : Value) × (lookup k (edit_variables override_user edits m)
        ≡ some (record v { value = x }))
edit_keeps_metadata override_user k edits m v at_k =
    let (x, e) = edit_at_metadata override_user k edits v in
    (x, ground (arith, lookup-edit_variables override_user k edits m))

-- A user without the override adds any variable that is not there, provided that the request itself
-- calls the variable editable: the mark is read from what the user sent.
pub edit_adds :
    (k : String) (m : List (String × Variable)) (v : Variable)
    → lookup k m ≡ none
    → v.user_editable ≡ true
    → lookup k (edit_variables false ((k, v) ∷ []) m) ≡ some v
edit_adds k m v absent h = ground (arith, lookup-edit_variables false k ((k, v) ∷ []) m, eq_refl k)

-- The keys of a Go map: no entry's key is that of a later one.
abbrev pub IsDistinct : List (String × Variable) → Type 0
IsDistinct [] = Unit
IsDistinct ((k, v) ∷ edits) = (lookup k edits ≡ none) × IsDistinct edits

abbrev settle_one : Bool → Option Variable → Option Variable → Option Variable
settle_one override_user none entry = entry
settle_one override_user (some v) entry = settle override_user v entry

-- Of distinct keys, at most one concerns a given key.
edit_at-lookup :
    (override_user : Bool) (k : String) (edits : List (String × Variable)) (entry : Option Variable)
    → IsDistinct edits
    → edit_at override_user k edits entry ≡ settle_one override_user (lookup k edits) entry
unfolding lookup
edit_at-lookup override_user k [] entry h = refl
edit_at-lookup override_user k ((j, v) ∷ edits) entry (fresh, h) = elim (Bool-cases (j == k)) [
  | inl same ↦
      rw (same, edit_at-lookup override_user k edits (settle override_user v entry) h)
        (ap (λ x. settle_one override_user x (settle override_user v entry))
          (ap (λ i. lookup i edits) (sym (eq_same j k same)) ∙ fresh))
  | inr other ↦ rw (other, edit_at-lookup override_user k edits entry h) refl
]

-- `Edit` of a map that is not nil does not depend on the order in which Go goes over the edits: two lists of distinct
-- keys that are the same map, applied to two lists of variables that are the same map, leave variables
-- that are the same map.
pub edit_any_order :
    (override_user : Bool) (edits others m n : List (String × Variable))
    → IsDistinct edits
    → IsDistinct others
    → ((k : String) → lookup k edits ≡ lookup k others)
    → ((k : String) → lookup k m ≡ lookup k n)
    → (k : String)
    → lookup k (edit_variables override_user edits m)
      ≡ lookup k (edit_variables override_user others n)
edit_any_order override_user edits others m n de df same_edits same k =
    lookup-edit_variables override_user k edits m
    ∙ edit_at-lookup override_user k edits (lookup k m) de
    ∙ ap₂ (settle_one override_user) (same_edits k) (same k)
    ∙ sym (edit_at-lookup override_user k others (lookup k n) df)
    ∙ sym (lookup-edit_variables override_user k others n)
