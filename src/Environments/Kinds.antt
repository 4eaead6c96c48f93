-- ===== src/Environments/Kinds.antt =====
-- Which environments can be made (environments/environmentloader.go, `Create`).
use pufferd.Common.{
  zero, suc, ◌<◌, String, [], none, some, if◌then◌else◌, ◌==◌, lookup, ◌≡◌, ◌≢◌, refl, arith, ap,
  ◌∙◌, Bool-cases, Option-cases, inl, inr, eq_iff, eq_other, false,
}
use pufferd.Types.{Result-cases, Err, other, Result, ok, err, Value}
use pufferd.Text.{◌<>◌}
use pufferd.Environments.Loader.{
  ℤ, pos, negsuc, Factory, standard, docker, tty, key, Item, create_item, load_modules,
  load_additional_modules, create_cache, Made, with_base, create,
}

-- The name of a kind that is registered is its factory's key.
registered :
    (name : String) (factory : Factory)
    → lookup name load_modules ≡ some factory
    → key factory ≡ name
unfolding load_modules load_additional_modules lookup key
registered name factory h =
    ground (arith, eq_iff "tty" name, eq_iff "docker" name, eq_iff "standard" name)

create_cache-positive : (buffer : ℤ) → 0 < create_cache buffer
unfolding create_cache
create_cache-positive (pos zero) = omega arith
create_cache-positive (pos (suc n)) = omega arith
create_cache-positive (negsuc n) = omega arith

-- An environment that is fit for use: it is of the kind, has a folder, its console keeps a message, nobody
-- listens and nothing waits.
pub record IsFit (name id : String) (m : Made) : Type 0 where
  pub of_kind : key m.item.execution_function ≡ name
  pub of_server : name ≡ "docker" → m.item.container_id ≡ id
  pub has_folder : m.item.root_directory ≢ ""
  pub keeps_messages : 0 < m.capacity
  pub unheard : m.sockets ≡ []
  pub idle : m.wait ≡ 0

-- How making an environment of a kind ends: an unknown kind and a section that cannot be read are errors.
pub data Ends (name id : String) (read : Item → Result Item) : Result Made → Type 0 where
  unknown :
      lookup name load_modules ≡ none
      → Ends name id read (err (other ("undefined environment: " <> name)))
  unread :
      (f : Factory) (e : Err)
      → key f ≡ name
      → read (create_item f id) ≡ err e
      → Ends name id read (err e)
  fit : (m : Made) → IsFit name id m → Ends name id read (ok m)

own_function : (f : Factory) (id : String) → (create_item f id).execution_function ≡ f
unfolding create_item
own_function standard id = refl
own_function docker id = refl
own_function tty id = refl

no_docker : (name : String) → (name == "docker") ≡ false → name ≢ "docker"
no_docker name h = eq_other name "docker" h

container_of : (f : Factory) (id : String) → key f ≡ "docker" → (create_item f id).container_id ≡ id
unfolding create_item key
container_of standard id h = absurd (no_docker "standard" refl h)
container_of docker id h = refl
container_of tty id h = absurd (no_docker "tty" refl h)

module _ (read : Item → Result Item) (join_path : String → String → String) (buffer : ℤ)
    (name folder id : String) (rooted : join_path folder id ≢ "")
    (hidden : (x y : Item)
      → read x ≡ ok y
      → (y.container_id ≡ x.container_id) × (y.execution_function ≡ x.execution_function)) where
  rooted_item : (root : String) → (if root == "" then join_path folder id else root) ≢ ""
  rooted_item root = elim (Bool-cases (root == "")) [
    | inl empty ↦ rw empty rooted
    | inr given ↦ rw given (eq_other root "" given)
  ]

  with_base-IsFit :
      (f : Factory) (item : Item)
      → key f ≡ name
      → read (create_item f id) ≡ ok item
      → IsFit name id (with_base join_path buffer folder id item)
  unfolding with_base
  with_base-IsFit f item named done = record {
    of_kind = ap key ((hidden _ item done).1 ∙ own_function f id) ∙ named;
    of_server = λ is_docker. (hidden _ item done).0 ∙ container_of f id (named ∙ is_docker);
    has_folder = rooted_item item.root_directory;
    keeps_messages = create_cache-positive buffer;
    unheard = refl;
    idle = refl;
  }

-- Making an environment ends in one of three ways: the kind is not registered, the section of the definition
-- cannot be read, or the environment is of the kind that was asked for, a container has the server's
-- identifier as its own, its root directory is not empty, and its console keeps at least one message, whatever
-- the setting. Reading a section is assumed to leave the fields alone that are not read from JSON, and the
-- path of the server not to be empty.
pub create-Ends :
    (unmarshal_to : Value → Item → Result Item) (join_path : String → String → String) (buffer : ℤ)
    (name folder id : String) (section : Value)
    → join_path folder id ≢ ""
    → ((x y : Item)
        → unmarshal_to section x ≡ ok y
        → (y.container_id ≡ x.container_id) × (y.execution_function ≡ x.execution_function))
    → Ends name id
        (unmarshal_to section)
        (create load_modules unmarshal_to join_path buffer name folder id section)
unfolding create
create-Ends unmarshal_to join_path buffer name folder id section rooted hidden =
    elim (Option-cases (lookup name load_modules)) [
      | inl absent ↦ rw (absent, create) (unknown absent)
      | inr (f, there) ↦ elim (Result-cases (unmarshal_to section (create_item f id))) [
        | inl (e, bad) ↦ rw (there, bad, create) (unread f e (registered name f there) bad)
        | inr (item, good) ↦
            rw (there, good, create)
              (fit _ (
                with_base-IsFit (unmarshal_to section) join_path buffer name folder id rooted hidden
                  f item (registered name f there) good))
      ]
    ]
