-- ===== src/Pipeline.antt =====
-- Transfers and requests from end to end: built and signed by src/molecule.c, checked by
-- src/libraries/check_molecule.c; this file is about transfers.
mod Plain
mod Atoms
mod Identity
pub mod Request
pub mod Answer
use knish_io_client_c.Builders.{
  System, meta_create, has_bad_length, fresh_atom, atom_create, set_wallet_bundle_meta, add_all,
}
use knish_io_client_c.Builders.Adding.{numbered_from, Extended, HasMemory, add_all-Extended}
use knish_io_client_c.Builders.Balanced.{Sender, v_conserves}
use knish_io_client_c.Builders.Conserves.{debit, credit, Ready, three_amounts, init_value-add_all}
use knish_io_client_c.Builders.Exact.{magnitude, limit, Exact, CarryAll}
use knish_io_client_c.Builders.Made.{Usable, atom_create-fresh}
use knish_io_client_c.Builders.Transfer.{
  left_over, Casts, print_debit, at_wallet, source_atom, credit_atom, value_atoms, init_value,
}
use knish_io_client_c.Builders.Units.{
  Cjson, build_token_units_json, attach_token_units_meta, attach_unless_none, attach_json,
  single_meta,
}
use knish_io_client_c.Check.{check_molecular_hash, check_ots, molecule_check}
use knish_io_client_c.Check.Accepts.{molecule_check_iff, Accepted}
use knish_io_client_c.Check.Rehash.{check_molecular_hash_iff}
use knish_io_client_c.Check.Value.{Floats, check_isotope_v}
use knish_io_client_c.Decimal.{print_int}
use knish_io_client_c.Errors.{ErrorCode, success, Result, ok, err}
use knish_io_client_c.Isotope.{Isotope, isotope_v}
use knish_io_client_c.Molecule.{Meta, Atom, Molecule, atom_count, set_index}
use knish_io_client_c.Molecule.Hash.{Json, sort_atoms, insert_atom}
use knish_io_client_c.Ots.{generate_wallet_key, generate_address}
use knish_io_client_c.Ots.Keys.{AddsHex, IsOtsVersion}
use knish_io_client_c.Pipeline.Atoms.{
  attach-core, sent, received, transfer, value_atoms-transfer, sort_atoms-transfer,
  transfer-carries, transfer-AllPlain, transfer-Unsigned,
}
use knish_io_client_c.Pipeline.Plain.{
  PlainAtom, AllPlain, same_version, AllPlain-Lawful, AllPlain-bare, CarryAll-bare, CarryAll-first,
}
use knish_io_client_c.Signature.{sign, signing_ots_version}
use knish_io_client_c.Signature.Accepted.{sign_accepted}
use knish_io_client_c.Signature.Rehash.{bare}
use knish_io_client_c.Signature.Fragments.{Unsigned}
use knish_io_client_c.Wallet.{TokenUnit, Wallet}
use knish_io_client_c.Prelude.{
  int_max, wrap_int, neg_part, ℕ, ◌+◌, ◌<◌, ◌≤◌, ◌≡◌, ◌≢◌, refl, ap, sym, ◌∙◌, Bool, true, false,
  Option, none, some, ◌>>=◌, List, [], ◌∷◌, ◌++◌, map, Bytes, codes, length, ℤ, pos, ◌-ℤ◌, ◌≤ℤ◌,
  arith, ◌==◌,
}

same_token :
    (s w : Wallet) (us : Usable s) (uw : Usable w) → w.token ≡ s.token → uw.token ≡ us.token
same_token s w us uw e =
    let h : some uw.token ≡ some us.token = sym uw.has_token ∙ e ∙ us.has_token in cc

-- A molecule with three atoms for the entries and with what is signed.
module _ (cjson : Cjson) (floats : Floats) (casts : Casts floats) (of_long : ℤ → floats.LongDouble)
    (exact : Exact floats casts of_long) (print_unformatted : Json → Bytes)
    (key_from_hex : Bytes → Bytes → Option Bytes) where
  -- Signed atoms that differ from those of a transfer in their fragments only pass the check.
  transfer_checks :
      (signed : Molecule) (built : List Atom) (token : Bytes) (n : ℕ) (amount : ℤ)
      (sender : Option floats.Double)
      → map bare signed.atoms ≡ map bare built
      → CarryAll built (
          debit isotope_v n
          ∷ credit isotope_v amount
          ∷ credit isotope_v (left_over (pos n) amount)
          ∷ [])
      → AllPlain token built
      → token ≢ codes "USER"
      → amount ≤ℤ pos n
      → n + neg_part amount ≤ int_max
      → Sender floats casts of_long exact sender n
      → check_molecular_hash print_unformatted signed ≡ some true
      → check_ots signed ≡ some success
      → molecule_check floats print_unformatted signed sender ≡ some success
  transfer_checks signed built token n amount sender alike carries plain user h l s hashed ots =
      let (small, balanced) = three_amounts n amount h l in
      let carry =
        CarryAll-bare signed.atoms built
          (debit isotope_v n
            ∷ credit isotope_v amount
            ∷ credit isotope_v (left_over (pos n) amount)
            ∷ [])
          alike carries in
      let (first, rest, e, k) = CarryAll-first signed.atoms _ _ carry in
      (molecule_check_iff floats print_unformatted signed sender).1 (record {
        hashed = (check_molecular_hash_iff print_unformatted signed k).0 hashed;
        signed = ots;
        lawful =
            AllPlain-Lawful token signed first rest e user
              (AllPlain-bare token signed.atoms built alike plain);
        conserves =
            v_conserves floats casts of_long exact signed (debit isotope_v n)
              (credit isotope_v amount ∷ credit isotope_v (left_over (pos n) amount) ∷ []) sender n
              carry (refl, (refl, (refl, tt))) small balanced refl (omega arith) s;
      })

  -- A transfer goes through: of at most the balance, with a remainder wallet, it is built, what is
  -- built is signed, compressed or not, and what is signed the check accepts, whether or not the
  -- balance of the sender is tested too. Before, the molecule has no atoms, and has a secret that
  -- is not empty and a bundle; there is memory; the three wallets have a position, an address and
  -- the same token, which is not USER, and no batch; the source wallet has the position and the
  -- address of the key that the secret gives for the molecule's version, 1 or 2; the balance is a
  -- whole number that is not negative, and it, plus the size of the amount if that is negative, is
  -- at most INT_MAX. It is assumed that hexadecimal texts can be added.
  pub transfer_accepted :
      (system : System) (m : Molecule) (source recipient remainder : Wallet) (n : ℕ) (amount : ℤ)
      (sender : Option floats.Double) (secret b : Bytes) (bundle : Option Bytes)
      (anonymous compressed : Bool)
      → (ready : Ready system m source remainder) → Usable recipient
      → amount ≤ℤ pos n
      → n + neg_part amount ≤ int_max
      → Sender floats casts of_long exact sender n
      → (recipient.token ≡ source.token) × (remainder.token ≡ source.token)
      → source.token ≢ some (codes "USER")
      → (source.batch_id ≡ none) × (recipient.batch_id ≡ none) × (remainder.batch_id ≡ none)
      → AddsHex key_from_hex
      → IsOtsVersion (signing_ots_version m)
      → 0 < length secret
      → 0 < length ready.from_source.position
      → m.secret ≡ some secret
      → m.bundle ≡ some b
      → (generate_wallet_key key_from_hex secret source.token ready.from_source.position
            (signing_ots_version m)
          >>= generate_address)
        ≡ source.address
      → (m' : Molecule) × (signed : Molecule) × (init_value cjson floats casts system m
            (some recipient)
            (casts.of_int (pos n))
            amount
          ≡ (m', success))
        × (sign print_unformatted key_from_hex m' bundle anonymous compressed
            ≡ some (signed, success))
        × (molecule_check floats print_unformatted signed sender ≡ some success)
  transfer_accepted system m source recipient remainder n amount sender secret b bundle anonymous
        compressed ready ur h l s (tr, tk) user batches adds version sl pl hs hb owns =
      let us = ready.from_source in
      let uk = ready.to_remainder in
      let now = system.now in
      let atoms = transfer cjson now source recipient remainder us ur uk n amount in
      let built = numbered_from 0 atoms in
      let first = sent cjson now source us n in
      let second = received cjson now recipient ur amount in
      let third = received cjson now remainder uk (left_over (pos n) amount) in
      let start : atom_count m ≡ 0 = ap length ready.none_yet in
      let (m', done, ext) =
        add_all-Extended system m atoms ready.ordered ready.memory (omega (arith, start)) in
      let at : m'.atoms ≡ built =
        ext.at_end ∙ ap (λ l. l ++ numbered_from (length l) atoms) ready.none_yet in
      let sorted : sort_atoms m'.atoms ≡ built =
        ap sort_atoms at ∙ sort_atoms-transfer cjson first second third in
      let same = same_version m' m ext.wallets.0 in
      let (signed, signs, hashed, ots, alike) =
        sign_accepted print_unformatted key_from_hex m' secret b bundle anonymous compressed
          (set_index first 0) (numbered_from 1 (second ∷ third ∷ [])) us.position us.address adds
          (rw same version) sl pl (ext.owner.0 ∙ hs) (ext.owner.1 ∙ hb) sorted
          (rw sorted (transfer-Unsigned cjson now source recipient remainder us ur uk n amount))
          (ap (λ a. a.position) (attach-core cjson _ source))
          (ap
              (λ t.
                generate_wallet_key key_from_hex secret t us.position (signing_ots_version m')
                >>= generate_address)
              (ap (λ a. a.token) (attach-core cjson _ source) ∙ sym us.has_token)
            ∙ ap
                (λ v.
                  generate_wallet_key key_from_hex secret source.token us.position v
                  >>= generate_address)
                same
            ∙ owns
            ∙ us.has_address)
          (ap (λ a. a.wallet_address) (attach-core cjson _ source)) in
      (
        m',
        signed,
        init_value-add_all cjson floats casts of_long exact system m source recipient remainder n
              amount ready h l
            ∙ ap (add_all system m)
                (value_atoms-transfer cjson now source recipient remainder us ur uk n amount)
            ∙ done,
        signs,
        transfer_checks signed built us.token n amount sender (alike ∙ ap (map bare) sorted)
            (transfer-carries cjson now source recipient remainder us ur uk n amount)
            (transfer-AllPlain cjson now source recipient remainder us ur uk n amount
              (same_token source recipient us ur tr) (same_token source remainder us uk tk) batches)
            (λ e. user (us.has_token ∙ ap some e)) h l s hashed ots,
      )
