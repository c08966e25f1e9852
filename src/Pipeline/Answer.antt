-- ===== src/Pipeline/Answer.antt =====
-- A request from end to end: built and signed (src/molecule.c), checked
-- (src/libraries/check_molecule.c).
use knish_io_client_c.Builders.{System}
use knish_io_client_c.Builders.Adding.{numbered_from}
use knish_io_client_c.Builders.Conserves.{Ready}
use knish_io_client_c.Builders.Made.{Usable}
use knish_io_client_c.Check.{check_molecular_hash, check_ots, molecule_check}
use knish_io_client_c.Check.Accepts.{molecule_check_iff}
use knish_io_client_c.Check.Lawful.{Has}
use knish_io_client_c.Check.Rehash.{check_molecular_hash_iff}
use knish_io_client_c.Check.Value.{Floats}
use knish_io_client_c.Errors.{success}
use knish_io_client_c.Isotope.{isotope_i}
use knish_io_client_c.Molecule.{Atom, Molecule, set_index}
use knish_io_client_c.Molecule.Hash.{Json, sort_atoms, insert_atom}
use knish_io_client_c.Ots.{generate_wallet_key, generate_address}
use knish_io_client_c.Ots.Keys.{AddsHex, IsOtsVersion}
use knish_io_client_c.Pipeline.Identity.{
  IdentityAtom, Identity-bare, Has-bare, Identity-Lawful, Identity-check_isotope_v,
}
use knish_io_client_c.Pipeline.Plain.{same_version}
use knish_io_client_c.Pipeline.Request.{
  Request, build, first_atom, next_position, build-Extended, meta_data, authorization,
  token_creation, wallet_creation, shadow_wallet_claim, pair_metas-nonempty,
}
use knish_io_client_c.Signature.{sign, signing_ots_version}
use knish_io_client_c.Signature.Accepted.{sign_accepted}
use knish_io_client_c.Signature.Rehash.{bare}
use knish_io_client_c.Wallet.{Wallet}
use knish_io_client_c.Prelude.{
  ◌<◌, ◌≡◌, refl, ap, sym, ◌∙◌, Bool, true, false, Option, none, some, ◌>>=◌, List, [], ◌∷◌, ◌++◌,
  map, Bytes, codes, length, ℤ, arith, ◌==◌, All, inl, inr,
}

module _ (now : ℤ) (w : Wallet) (u : Usable w) where
  first_atom-IdentityAtom :
      (request : Request)
      → w.token ≡ some (codes "USER")
      → IdentityAtom (set_index (first_atom now w u request) 0)
  first_atom-IdentityAtom (meta_data meta_type meta_id pair pairs) e =
      inl (refl, (pair_metas-nonempty (pair ∷ pairs) (omega arith), sym u.has_token ∙ e))
  first_atom-IdentityAtom (authorization encrypt) e =
      inr (inr (inl (refl, (inr (sym u.has_token ∙ e), refl))))
  first_atom-IdentityAtom (token_creation recipient amount pairs) e =
      inr (inr (inr (refl, (sym u.has_token ∙ e, refl))))
  first_atom-IdentityAtom (wallet_creation created pairs) e =
      inr (inr (inr (refl, (sym u.has_token ∙ e, refl))))
  first_atom-IdentityAtom (shadow_wallet_claim claimed) e =
      inr (inr (inr (refl, (sym u.has_token ∙ e, refl))))

  -- What signing reads of the atom.
  first_atom-fields :
      (request : Request)
      → ((first_atom now w u request).ots_fragment ≡ none)
        × ((first_atom now w u request).position ≡ some u.position)
        × ((first_atom now w u request).wallet_address ≡ some u.address)
        × ((first_atom now w u request).token ≡ some u.token)
  first_atom-fields (meta_data meta_type meta_id pair pairs) = (refl, refl, refl, refl)
  first_atom-fields (authorization encrypt) = (refl, refl, refl, refl)
  first_atom-fields (token_creation recipient amount pairs) = (refl, refl, refl, refl)
  first_atom-fields (wallet_creation created pairs) = (refl, refl, refl, refl)
  first_atom-fields (shadow_wallet_claim claimed) = (refl, refl, refl, refl)

-- The two atoms, with the indexes 0 and 1.
abbrev request_atoms : ℤ → (s r : Wallet) → Usable s → Usable r → Request → List Atom
request_atoms now s r us ur request =
    numbered_from 0 (first_atom now s us request ∷ next_position now (some s) r ur ∷ [])

request_atoms-IdentityAtom :
    (now : ℤ) (s r : Wallet) (us : Usable s) (ur : Usable r) (request : Request)
    → (s.token ≡ some (codes "USER")) × (r.token ≡ some (codes "USER"))
    → All IdentityAtom (request_atoms now s r us ur request)
request_atoms-IdentityAtom now s r us ur request (ts, tr) = (
  first_atom-IdentityAtom now s us request ts,
  (inr (inl (refl, (sym ur.has_token ∙ tr, (λ e. cc e)))), tt),
)

sort_atoms-two :
    (x y : Atom) → sort_atoms (numbered_from 0 (x ∷ y ∷ [])) ≡ numbered_from 0 (x ∷ y ∷ [])
unfolding sort_atoms insert_atom
sort_atoms-two x y = refl

two_or_more :
    (xs : List Atom) (y : Atom) (ys : List Atom)
    → map bare xs ≡ map bare (y ∷ ys)
    → (length xs == 0) ≡ false
two_or_more [] y ys e = absurd (cc e)
two_or_more (x ∷ xs) y ys e = ground arith

module _ (floats : Floats) (print_unformatted : Json → Bytes)
    (key_from_hex : Bytes → Bytes → Option Bytes) where
  -- Signed atoms that differ in their fragments only from M and I atoms that obey their rules pass.
  identity_checks :
      (signed : Molecule) (y : Atom) (ys : List Atom) (sender : Option floats.Double)
      → map bare signed.atoms ≡ map bare (y ∷ ys)
      → All IdentityAtom (y ∷ ys)
      → Has isotope_i (y ∷ ys)
      → floats.is_below (floats.fabs floats.double_zero) floats.hundredth ≡ true
      → check_molecular_hash print_unformatted signed ≡ some true
      → check_ots signed ≡ some success
      → molecule_check floats print_unformatted signed sender ≡ some success
  identity_checks signed y ys sender alike good has zero hashed ots =
      let all = Identity-bare signed.atoms (y ∷ ys) alike good in
      (molecule_check_iff floats print_unformatted signed sender).1 (record {
        hashed =
            (check_molecular_hash_iff print_unformatted signed
                (two_or_more signed.atoms y ys alike)).0
              hashed;
        signed = ots;
        lawful = Identity-Lawful signed (Has-bare isotope_i signed.atoms (y ∷ ys) alike has) all;
        conserves = Identity-check_isotope_v floats signed sender zero all;
      })

  -- A request goes through: for meta data with a pair at least, an authorization, new tokens, a new
  -- wallet or a shadow wallet, the builder makes a molecule that can be signed, compressed or not,
  -- and that the check accepts once it is signed, whether or not the balance of the sender is tested
  -- too. Before, the molecule has no atoms, and has a secret that is not empty and a bundle; there
  -- is memory; the source wallet and the remainder wallet have a position, an address and the token
  -- USER; the source wallet has the position and the address of the key that the secret gives for
  -- the molecule's version, 1 or 2. It is assumed that hexadecimal texts can be added, and that the
  -- size of zero is below a hundredth.
  pub request_accepted :
      (system : System) (m : Molecule) (source remainder : Wallet) (request : Request)
      (sender : Option floats.Double) (secret b : Bytes) (bundle : Option Bytes)
      (anonymous compressed : Bool)
      → (ready : Ready system m source remainder)
      → (source.token ≡ some (codes "USER")) × (remainder.token ≡ some (codes "USER"))
      → floats.is_below (floats.fabs floats.double_zero) floats.hundredth ≡ true
      → AddsHex key_from_hex
      → IsOtsVersion (signing_ots_version m)
      → 0 < length secret
      → 0 < length ready.from_source.position
      → m.secret ≡ some secret
      → m.bundle ≡ some b
      → (generate_wallet_key key_from_hex secret source.token ready.from_source.position
            (signing_ots_version m)
          >>= generate_address)
        ≡ source.address
      → (m' : Molecule) × (signed : Molecule) × (build system m request ≡ (m', success))
        × (sign print_unformatted key_from_hex m' bundle anonymous compressed
            ≡ some (signed, success))
        × (molecule_check floats print_unformatted signed sender ≡ some success)
  request_accepted system m source remainder request sender secret b bundle anonymous compressed
        ready tokens zero adds version sl pl hs hb owns =
      let us = ready.from_source in
      let ur = ready.to_remainder in
      let now = system.now in
      let first = first_atom now source us request in
      let field = first_atom-fields now source us request in
      let second = next_position now m.source_wallet remainder ur in
      let second' = next_position now (some source) remainder ur in
      let built = numbered_from 0 (first ∷ second' ∷ []) in
      let (m', done, ext) = build-Extended system m source remainder request ready in
      let at : m'.atoms ≡ built =
        ext.at_end
        ∙ ap (λ l. l ++ numbered_from (length l) (first ∷ second ∷ [])) ready.none_yet
        ∙ ap (λ w. numbered_from 0 (first ∷ next_position now w remainder ur ∷ []))
            ready.has_source in
      let sorted : sort_atoms m'.atoms ≡ built = ap sort_atoms at ∙ sort_atoms-two first second' in
      let same = same_version m' m ext.wallets.0 in
      let (signed, signs, hashed, ots, alike) =
        sign_accepted print_unformatted key_from_hex m' secret b bundle anonymous compressed
          (set_index first 0) (numbered_from 1 (second' ∷ [])) us.position us.address adds
          (rw same version) sl pl (ext.owner.0 ∙ hs) (ext.owner.1 ∙ hb) sorted
          (rw sorted (field.0, (refl, tt))) field.1
          (ap
              (λ t.
                generate_wallet_key key_from_hex secret t us.position (signing_ots_version m')
                >>= generate_address)
              (field.3 ∙ sym us.has_token)
            ∙ ap
                (λ v.
                  generate_wallet_key key_from_hex secret source.token us.position v
                  >>= generate_address)
                same
            ∙ owns
            ∙ us.has_address)
          field.2 in
      (
        m',
        signed,
        done,
        signs,
        identity_checks signed (set_index first 0) (numbered_from 1 (second' ∷ [])) sender
            (alike ∙ ap (map bare) sorted)
            (request_atoms-IdentityAtom now source remainder us ur request tokens) (inr (inl refl))
            zero hashed ots,
      )
