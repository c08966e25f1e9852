-- ===== src/Tests/Molecules.antt =====
-- The theorems on molecules at concrete inputs.
use knish_io_client_c.Check.{molecule_check}
use knish_io_client_c.Check.Accepts.{Accepted, molecule_check_iff}
use knish_io_client_c.Check.Batches.{
  BatchRule, check_batch_id_iff, TokenRule, check_token_consistency_iff,
}
use knish_io_client_c.Check.Conserves.{BundleShape, Conserving, total_from, check_isotope_v-cross}
use knish_io_client_c.Check.Ends.{molecule_check_ends}
use knish_io_client_c.Check.Rules.{check_batch_id, check_token_consistency}
use knish_io_client_c.Check.Value.{is_cross, has_cross_isotope, check_isotope_v}
use knish_io_client_c.Errors.{ErrorCode, success, meta_missing}
use knish_io_client_c.Isotope.{isotope_v, isotope_eq}
use knish_io_client_c.Molecule.{Molecule, create, add_atom}
use knish_io_client_c.Molecule.Array.{IsWellFormed, create-IsWellFormed, Added, add_atom-Added}
use knish_io_client_c.Molecule.Hash.{sort_atoms, absorbed_values, generate_hash}
use knish_io_client_c.Base17.{hex_to_base17}
use knish_io_client_c.Base17.Division.{value17}
use knish_io_client_c.Base17.Value.{value16}
use knish_io_client_c.Molecule.Hashing.{generate_hash_total}
use knish_io_client_c.MolecularHash.{hash_is_signable}
use knish_io_client_c.Shake256.{shake256_hash}
use knish_io_client_c.Tests.Samples.{sample_atom, buffered, print_sample, fixed_point}
use knish_io_client_c.Prelude.{◌≡◌, refl, ◌↔◌, true, none, some, Bytes, codes, concat, pos, All}

molecule_check_iff_example :
    (molecule_check fixed_point print_sample buffered none ≡ some success)
    ↔ Accepted fixed_point print_sample buffered none
molecule_check_iff_example = molecule_check_iff fixed_point print_sample buffered none

molecule_check_ends_example :
    (e : ErrorCode) × (molecule_check fixed_point print_sample buffered none ≡ some e)
molecule_check_ends_example = molecule_check_ends fixed_point print_sample buffered none

buffered_cross : has_cross_isotope buffered.atoms ≡ true
unfolding has_cross_isotope isotope_eq
buffered_cross = refl

check_isotope_v-cross_example :
    (((check_isotope_v fixed_point buffered none).0 ≡ true) ↔ (
      Conserving fixed_point buffered.atoms
      × (fixed_point.is_below_long
            (fixed_point.fabsl (total_from fixed_point fixed_point.long_zero buffered.atoms))
            fixed_point.billionth
          ≡ true)))
    × ((check_isotope_v fixed_point buffered none).1 ≡ meta_missing
        → ¬ All (λ a. is_cross a ≡ true → BundleShape a) buffered.atoms)
check_isotope_v-cross_example = check_isotope_v-cross fixed_point buffered none buffered_cross

check_batch_id_iff_example : (check_batch_id buffered ≡ true) ↔ BatchRule buffered.atoms
check_batch_id_iff_example = check_batch_id_iff buffered

check_token_consistency_iff_example :
    (check_token_consistency buffered ≡ true) ↔ TokenRule buffered.atoms
check_token_consistency_iff_example = check_token_consistency_iff buffered

abbrev fresh : Molecule
fresh = create (pos 7) (some (codes "ab")) none none none none none

fresh-IsWellFormed : IsWellFormed fresh
fresh-IsWellFormed = create-IsWellFormed (pos 7) (some (codes "ab")) none none none none none

add_atom-Added_example :
    Added true fresh
      (sample_atom isotope_v (codes "5") (pos 9))
      (add_atom true fresh (sample_atom isotope_v (codes "5") (pos 9)))
add_atom-Added_example =
    add_atom-Added true fresh (sample_atom isotope_v (codes "5") (pos 9)) fresh-IsWellFormed

generate_hash_total_example :
    (hex text : Bytes) × (shake256_hash
        (concat (absorbed_values print_sample (sort_atoms buffered.atoms)))
        256
      ≡ some hex)
    × (hex_to_base17 hex ≡ some (some text))
    × (value17 0 text ≡ value16 0 hex)
    × (generate_hash print_sample buffered
        ≡ some (record buffered { molecular_hash = some text }, success))
    × (hash_is_signable (some text) ≡ true)
generate_hash_total_example = generate_hash_total print_sample buffered refl
