-- ===== src/Signature/Rehash.antt =====
-- That signing leaves the molecular hash as it is: fragments are not hashed (src/molecule.c).
use knish_io_client_c.Decimal.{print_nat}
use knish_io_client_c.Molecule.{Atom}
use knish_io_client_c.Molecule.Hash.{
  Json, created_at_text, insert_atom, sort_atoms, hashable_values, atom_version4_view, view_items,
  every_atom_versioned, absorbed_values, hash_hex,
}
use knish_io_client_c.Molecule.Hashing.{hash_hex-concat}
use knish_io_client_c.Shake256.{shake256_hash}
use knish_io_client_c.Signature.{distribute}
use knish_io_client_c.Prelude.{
  ℕ, ◌+◌, ◌*◌, ◌≡◌, refl, ap, ◌∙◌, sym, false, Bool-cases, none, some, List, [], ◌∷◌, Bytes, length,
  length-map, leb, map, concat, inl, inr, ltb_ℤ,
}

-- An atom without its fragment.
abbrev pub bare : Atom → Atom
bare a = record a { ots_fragment = none }

pub bare-distribute :
    (i size : ℕ) (signature : Bytes) (atoms : List Atom)
    → map bare (distribute i size signature atoms) ≡ map bare atoms
unfolding distribute
bare-distribute i size signature [] = refl
bare-distribute i size signature (a ∷ atoms) =
    elim (Bool-cases (leb (length signature) (i * size))) [
      | inl e ↦ rw (distribute, e) refl
      | inr e ↦
          rw (distribute, e) (ap (◌∷◌ (bare a)) (bare-distribute (i + 1) size signature atoms))
    ]

insert_bare :
    (a : Atom) (atoms : List Atom)
    → insert_atom (bare a) (map bare atoms) ≡ map bare (insert_atom a atoms)
unfolding insert_atom
insert_bare a [] = refl
insert_bare a (b ∷ atoms) = elim (Bool-cases (ltb_ℤ b.index a.index)) [
  | inl e ↦ rw (insert_atom, e) (ap (◌∷◌ (bare b)) (insert_bare a atoms))
  | inr e ↦ rw (insert_atom, e) refl
]

sort_bare : (atoms : List Atom) → sort_atoms (map bare atoms) ≡ map bare (sort_atoms atoms)
unfolding sort_atoms
sort_bare [] = refl
sort_bare (a ∷ atoms) =
    ap (insert_atom (bare a)) (sort_bare atoms) ∙ insert_bare a (sort_atoms atoms)

view_bare : (atoms : List Atom) → view_items (map bare atoms) ≡ view_items atoms
unfolding atom_version4_view created_at_text
view_bare [] = refl
view_bare (a ∷ atoms) = rw (view_bare atoms) refl

versioned_bare :
    (atoms : List Atom) → every_atom_versioned (map bare atoms) ≡ every_atom_versioned atoms
unfolding every_atom_versioned
versioned_bare [] = refl
versioned_bare (a ∷ atoms) =
    ap (λ rest. elim a.version [ none ↦ false | some text ↦ rest ]) (versioned_bare atoms)

values_bare :
    (count : Bytes) (atoms : List Atom)
    → map (hashable_values count) (map bare atoms) ≡ map (hashable_values count) atoms
unfolding hashable_values created_at_text
values_bare count [] = refl
values_bare count (a ∷ atoms) = ap (◌∷◌ (hashable_values count a)) (values_bare count atoms)

module _ (print_unformatted : Json → Bytes) where
  absorbed_bare :
      (atoms : List Atom)
      → absorbed_values print_unformatted (map bare atoms) ≡ absorbed_values print_unformatted atoms
  unfolding absorbed_values atom_version4_view
  absorbed_bare atoms =
      rw
        (
          absorbed_values,
          versioned_bare atoms,
          sort_bare atoms,
          view_bare (sort_atoms atoms),
          length-map atoms bare,
          values_bare (print_nat (length atoms)) atoms,
        )
        refl

  -- Atoms that differ in their fragments only have one hash.
  pub hash_hex-bare :
      (xs ys : List Atom)
      → map bare xs ≡ map bare ys
      → hash_hex print_unformatted xs ≡ hash_hex print_unformatted ys
  hash_hex-bare xs ys e =
      let same =
        sym (absorbed_bare xs) ∙ ap (absorbed_values print_unformatted) e ∙ absorbed_bare ys in
      hash_hex-concat print_unformatted xs
      ∙ ap (λ texts. shake256_hash (concat texts) 256) same
      ∙ sym (hash_hex-concat print_unformatted ys)

pub sort_atoms-bare :
    (xs ys : List Atom)
    → map bare xs ≡ map bare ys
    → map bare (sort_atoms xs) ≡ map bare (sort_atoms ys)
sort_atoms-bare xs ys e = sym (sort_bare xs) ∙ ap sort_atoms e ∙ sort_bare ys

pub bare-length : (xs ys : List Atom) → map bare xs ≡ map bare ys → length xs ≡ length ys
bare-length xs ys e = sym (length-map xs bare) ∙ ap length e ∙ length-map ys bare
