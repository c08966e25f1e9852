-- ===== src/Lib.antt =====
-- Verification library of the KnishIO C client: the part that decides what a molecule is, who has
-- signed it, and whether it is accepted.
--
-- A molecule is an array of atoms. Its hash is a SHAKE256 digest of the atoms' texts, written to
-- the base 17; its signature is a Winternitz one-time signature, whose chains are hashed as often
-- as the digits of the hash say; and the check recomputes the hash, completes the chains to the
-- address of the signing atom, and applies the rules of the isotopes. The files follow the program:
--
--   Errors, Isotope, Wallet, Molecule    the types of include/knishio (error/context.h, atom.h,
--                                        wallet.h, molecule.h) and the array of atoms of
--                                        src/molecule.c (create, add_atom, filter)
--   Molecule/Hash                        knishio_molecule_generate_hash of src/molecule.c, with the
--                                        Version4 view of src/atom.c
--   Base17                               hex_to_base17 of src/molecule.c
--   MolecularHash                        hash_is_signable, enumerate and normalize of src/molecule.c
--   Signature                            knishio_molecule_sign of src/molecule.c
--   Shake256, Hex                        src/crypto/shake256.c
--   Base64                               src/libraries/base64.c
--   Ots                                  keys, addresses and versions of src/wallet.c
--   Wallet/Split                         the split of token units of src/wallet.c
--   Dates                                the dates of src/libraries/served_molecule.c
--   Validate                             checks of src/utils/security.c
--   Builders                             what the knishio_molecule_init_ functions of src/molecule.c
--                                        share, with knishio_atom_create of src/atom.c and
--                                        knishio_meta_create of src/meta.c
--   Builders/Units                       token units as JSON texts (src/molecule.c)
--   Builders/Identity                    init_meta, init_authorization, init_token_creation and the
--                                        wallet functions
--   Builders/Transfer                    init_value, init_values, init_burn and the buffers
--   Builders/Issue                       init_replenish and init_fuse_token
--   Check                                src/libraries/check_molecule.c
--   Pipeline                             building, signing and checking one after the other
--   Pipeline/Request                     the requests, of meta data, an authorization, tokens or a
--                                        wallet, as one data type (specification)
--
-- Each definition has the name of the function without its prefix `knishio_`. A NULL is `none`, a
-- returned code stands beside the output, and a changed struct is the next value of its record.
-- Texts are lists of bytes without the terminating zero. Allocation succeeds, except where an
-- argument says whether it does.
--
-- A loop whose end is not plain runs on fuel and gives `none` when that is used up. The conversion
-- to the base 17 has fuel for 64 rounds: a number of 32 bytes has at most 63 digits. The loop of
-- normalize has one round more than the sum of the array is away from 0: each round brings it
-- nearer by at least 1, if the sum did not overflow. The theorems on termination state that this is
-- enough.
--
-- A builder creates atoms and adds them one after the other until the first error; the atoms that
-- were added stay. What the clock says and whether the array can grow is an argument, and so is the
-- balance of the source wallet. Sums and differences of int are cut down to 32 bits; what a cast of
-- a double to int gives is assumed only for the whole numbers that an int can hold.
--
-- Parameters are the addition of hexadecimal texts (the GMP library), the printer and the
-- parser of JSON values (the cJSON library), and the floating-point numbers of C. The kcore library, an optional faster
-- backend of the chains, is left out: the loops that run without it are modelled. Not modelled are
-- the network, the GraphQL requests and answers, the secret storage, and ML-KEM and AES-GCM.
mod Prelude
pub mod Errors
pub mod Isotope
pub mod Decimal
pub mod Wallet
pub mod Molecule
pub mod Hex
pub mod Base64
pub mod Shake256
pub mod MolecularHash
pub mod Base17
pub mod Ots
pub mod Validate
pub mod Signature
pub mod Builders
pub mod Check
pub mod Pipeline
pub mod Dates
mod Tests
