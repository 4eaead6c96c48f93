-- ===== src/Sftp/Listing.antt =====
-- Reading a listing in pages.
use pufferd.Common.{
  ℕ, zero, suc, ◌+◌, ◌<◌, List, [], ◌++◌, false, is_some, if◌then◌else◌, ◌≡◌, arith, Bool-cases,
  inl, inr, leb, ltb, ltb→lt, sym, ◌∙◌, ap, drop_long, take_short, take-append-drop, drop-drop,
  length-take-le, length, take, drop,
}
use pufferd.Sftp.{list_at}

module _ {ℓ} {A : Type ℓ} where
  -- A client that asks for pages of `room` entries until one ends with an error.
  pub read_pages : ℕ → List A → ℕ → ℕ → List A
  unfolding list_at
  read_pages zero f room offset = []
  read_pages (suc fuel) f room offset =
      let (page, failed) = list_at f room offset in
      let rest = read_pages fuel f room (offset + length page) in
      if is_some failed then page else page ++ rest

  full_page :
      (room : ℕ) (d : List A)
      → ltb (length (take room d)) room ≡ false
      → length (take room d) ≡ room
  full_page room d h = ground (arith, length-take-le room d)

  next_page :
      (fuel : ℕ) (f : List A) (room offset : ℕ)
      → length (take room (drop offset f)) ≡ room
      → read_pages fuel f room (offset + length (take room (drop offset f)))
        ≡ drop (offset + length (take room (drop offset f))) f
      → take room (drop offset f)
          ++ read_pages fuel f room (offset + length (take room (drop offset f)))
        ≡ drop offset f
  next_page fuel f room offset full ih =
      ap (λ r. take room (drop offset f) ++ r)
        (ih
          ∙ sym (drop-drop offset (length (take room (drop offset f))) f)
          ∙ ap (λ (k : ℕ). drop k (drop offset f)) full)
      ∙ take-append-drop room (drop offset f)

  -- Reading a listing in pages from an offset on gives exactly the entries from there to the end, in
  -- order, each once, for any page size but 0, in at most one page more than there are entries left.
  pub read_pages-all :
      (fuel : ℕ) (f : List A) (room offset : ℕ)
      → 0 < room
      → length f < offset + fuel
      → read_pages fuel f room offset ≡ drop offset f
  unfolding read_pages
  read_pages-all zero f room offset pos enough = sym (drop_long offset f (omega arith))
  read_pages-all (suc fuel) f room offset pos enough = elim (Bool-cases (leb (length f) offset)) [
    | inl done ↦ rw done (sym (drop_long offset f (ground arith)))
    | inr more ↦ elim (Bool-cases (ltb (length (take room (drop offset f))) room)) [
      | inl short ↦ rw (more, short) (take_short room (drop offset f) (ltb→lt _ _ short))
      | inr full ↦
          rw (more, full)
            (next_page fuel f room offset (full_page room (drop offset f) full) (
              read_pages-all fuel f room (offset + length (take room (drop offset f))) pos
                (ground (arith, full_page room (drop offset f) full))))
    ]
  ]
