-- ===== src/Pipeline/Request.antt =====
-- What a client asks for with one atom and a ContinuID atom: meta data, an authorization, new tokens,
-- a new wallet, a shadow wallet (the `knishio_molecule_init_…` functions of src/molecule.c).
use knish_io_client_c.Builders.{
  System, metas_of, fresh_atom, continuid_metas, continuid_atom, and_then, add_created,
  add_continuid_atom,
}
use knish_io_client_c.Builders.Adding.{Extended, one_added, Extended-append}
use knish_io_client_c.Builders.Conserves.{Ready}
use knish_io_client_c.Builders.Identity.{
  meta_atom, init_meta, authorization_pairs, authorization_atom, init_authorization,
  with_wallet_meta, token_atom, init_token_creation, wallet_creation_atom, init_wallet_creation,
  init_shadow_wallet_claim, add_with_continuid,
}
use knish_io_client_c.Builders.Made.{Usable, atom_create-fresh}
use knish_io_client_c.Errors.{ErrorCode, is_success, success, invalid_state, Result, ok}
use knish_io_client_c.Isotope.{Isotope, isotope_m, isotope_u, isotope_c, isotope_i}
use knish_io_client_c.Molecule.{Meta, Atom, Molecule, atom_count, set_index}
use knish_io_client_c.Wallet.{Wallet}
use knish_io_client_c.Prelude.{
  ◌<◌, ◌≤◌, ◌≡◌, refl, ap, ◌∙◌, Bool, Option, none, some, List, [], ◌∷◌, ◌++◌, map, Bytes, codes,
  length, ℤ, arith,
}

-- A request: of a meta type, a meta identifier and the pairs; whether to encrypt; of the recipient,
-- the amount and the pairs; of the new wallet and the pairs; of the claimed wallet.
pub data Request : Type 0 where
  meta_data :
      (meta_type meta_id : Bytes) (pair : Bytes × Bytes) (pairs : List (Bytes × Bytes)) → Request
  authorization : (encrypt : Bool) → Request
  token_creation :
      (recipient : Wallet) (amount : Bytes) (pairs : List (Option Bytes × Option Bytes)) → Request
  wallet_creation : (created : Wallet) (pairs : List (Option Bytes × Option Bytes)) → Request
  shadow_wallet_claim : (claimed : Wallet) → Request

-- The function that answers it.
unfoldable pub build : System → Molecule → Request → Molecule × ErrorCode
unfolding init_meta init_authorization init_token_creation init_wallet_creation
    init_shadow_wallet_claim
build system m (meta_data meta_type meta_id pair pairs) =
    init_meta system m (some meta_type) (some meta_id) (pair ∷ pairs)
build system m (authorization encrypt) = init_authorization system m encrypt
build system m (token_creation recipient amount pairs) =
    init_token_creation system m (some recipient) (some amount) pairs
build system m (wallet_creation created pairs) = init_wallet_creation system m (some created) pairs
build system m (shadow_wallet_claim claimed) = init_shadow_wallet_claim system m (some claimed)

abbrev claim_pairs : List (Option Bytes × Option Bytes)
claim_pairs = (some (codes "shadowWalletClaim"), some (codes "1")) ∷ []

-- The atom that it creates, for the source wallet.
abbrev created_for : ℤ → Wallet → Request → Result Atom
created_for now w (meta_data meta_type meta_id pair pairs) =
    meta_atom now w meta_type meta_id (pair ∷ pairs)
created_for now w (authorization encrypt) = authorization_atom now w encrypt
created_for now w (token_creation recipient amount pairs) = token_atom now w recipient amount pairs
created_for now w (wallet_creation created pairs) = wallet_creation_atom now w created pairs
created_for now w (shadow_wallet_claim claimed) = wallet_creation_atom now w claimed claim_pairs

abbrev fresh : ℤ → (w : Wallet) → Usable w → Isotope → Option Bytes → Option Bytes → Atom
fresh now w u isotope value batch_id =
    fresh_atom now u.position u.address isotope u.token value batch_id

abbrev new_wallet : ℤ → (w : Wallet) → Usable w → Wallet → List (Option Bytes × Option Bytes) → Atom
new_wallet now w u created pairs = record (fresh now w u isotope_c none created.batch_id) {
  meta_type = some (codes "wallet");
  meta_id = created.address;
  meta = with_wallet_meta pairs created;
}

abbrev pub next_position : ℤ → Option Wallet → (w : Wallet) → Usable w → Atom
next_position now source w u =
    record (fresh_atom now u.position u.address isotope_i u.token none none) {
      meta_type = some (codes "walletBundle");
      meta_id = w.bundle_hash;
      meta = continuid_metas source w;
    }

abbrev pair_metas : List (Bytes × Bytes) → List (Option Meta)
pair_metas pairs = metas_of (map (λ (key, value). (key, some value)) pairs)

pub pair_metas-nonempty :
    (pairs : List (Bytes × Bytes)) → 0 < length pairs → 1 ≤ length (pair_metas pairs)
unfolding metas_of
pair_metas-nonempty [] h = omega arith
pair_metas-nonempty ((key, value) ∷ pairs) h = omega arith

-- The atom, written out.
abbrev pub first_atom : ℤ → (w : Wallet) → Usable w → Request → Atom
first_atom now w u (meta_data meta_type meta_id pair pairs) =
    record (fresh now w u isotope_m none none) {
      meta_type = some meta_type;
      meta_id = some meta_id;
      meta = pair_metas (pair ∷ pairs);
    }
first_atom now w u (authorization encrypt) = record (fresh now w u isotope_u none none) {
  meta = metas_of (authorization_pairs w encrypt);
}
first_atom now w u (token_creation recipient amount pairs) =
    record (fresh now w u isotope_c (some amount) recipient.batch_id) {
      meta_type = some (codes "token");
      meta_id = recipient.token;
      meta = with_wallet_meta pairs recipient;
    }
first_atom now w u (wallet_creation created pairs) = new_wallet now w u created pairs
first_atom now w u (shadow_wallet_claim claimed) = new_wallet now w u claimed claim_pairs

wallet_creation_atom-new_wallet :
    (now : ℤ) (w : Wallet) (u : Usable w) (created : Wallet)
    (pairs : List (Option Bytes × Option Bytes))
    → wallet_creation_atom now w created pairs ≡ ok (new_wallet now w u created pairs)
unfolding wallet_creation_atom
wallet_creation_atom-new_wallet now w u created pairs =
    rw (u.has_token, atom_create-fresh now w u isotope_c none u.token created.batch_id) refl

created_for-first_atom :
    (now : ℤ) (w : Wallet) (u : Usable w) (request : Request)
    → created_for now w request ≡ ok (first_atom now w u request)
unfolding meta_atom authorization_atom token_atom
created_for-first_atom now w u (meta_data meta_type meta_id pair pairs) =
    rw (u.has_token, atom_create-fresh now w u isotope_m none u.token none) refl
created_for-first_atom now w u (authorization encrypt) =
    rw (u.has_token, atom_create-fresh now w u isotope_u none u.token none) refl
created_for-first_atom now w u (token_creation recipient amount pairs) =
    rw (u.has_token, atom_create-fresh now w u isotope_c (some amount) u.token recipient.batch_id)
      refl
created_for-first_atom now w u (wallet_creation created pairs) =
    wallet_creation_atom-new_wallet now w u created pairs
created_for-first_atom now w u (shadow_wallet_claim claimed) =
    wallet_creation_atom-new_wallet now w u claimed claim_pairs

continuid_atom-next :
    (now : ℤ) (source : Option Wallet) (w : Wallet) (u : Usable w)
    → continuid_atom now source w ≡ ok (next_position now source w u)
unfolding continuid_atom
continuid_atom-next now source w u =
    rw (u.has_token, atom_create-fresh now w u isotope_i none u.token none) refl

add_continuid-created :
    (system : System) (m : Molecule) (w : Wallet)
    → m.remainder_wallet ≡ some w
    → add_continuid_atom system m
      ≡ add_created system m (continuid_atom system.now m.source_wallet w)
unfolding add_continuid_atom
add_continuid-created system m w e =
    ap
      (λ r. elim r as (λ x. Molecule × ErrorCode) [
        | none ↦ (m, invalid_state)
        | some w' ↦ add_created system m (continuid_atom system.now m.source_wallet w')
      ])
      e

at_source :
    (m : Molecule) (w : Wallet) (next : Wallet → Molecule × ErrorCode)
    → m.source_wallet ≡ some w
    → (elim m.source_wallet as (λ x. Molecule × ErrorCode) [
      | none ↦ (m, invalid_state)
      | some w' ↦ next w'
    ])
      ≡ next w
at_source m w next e =
    ap
      (λ r. elim r as (λ x. Molecule × ErrorCode) [ none ↦ (m, invalid_state) | some w' ↦ next w' ])
      e

build-added :
    (system : System) (m : Molecule) (w : Wallet) (request : Request)
    → m.source_wallet ≡ some w
    → build system m request ≡ add_with_continuid system m (created_for system.now w request)
unfolding build init_meta init_authorization init_token_creation init_wallet_creation
    init_shadow_wallet_claim
build-added system m w (meta_data meta_type meta_id pair pairs) e =
    at_source m w
      (λ w'. add_with_continuid system m (meta_atom system.now w' meta_type meta_id (pair ∷ pairs)))
      e
build-added system m w (authorization encrypt) e =
    at_source m w (λ w'. add_with_continuid system m (authorization_atom system.now w' encrypt)) e
build-added system m w (token_creation recipient amount pairs) e =
    at_source m w
      (λ w'. add_with_continuid system m (token_atom system.now w' recipient amount pairs)) e
build-added system m w (wallet_creation created pairs) e =
    at_source m w
      (λ w'. add_with_continuid system m (wallet_creation_atom system.now w' created pairs)) e
build-added system m w (shadow_wallet_claim claimed) e =
    at_source m w
      (λ w'. add_with_continuid system m (wallet_creation_atom system.now w' claimed claim_pairs)) e

-- The ContinuID atom is added behind the other.
continuid_added :
    (system : System) (m m₁ : Molecule) (source remainder : Wallet) (a : Atom)
    (ready : Ready system m source remainder)
    → Extended m (a ∷ []) m₁
    → (m' : Molecule) × (add_continuid_atom system m₁ ≡ (m', success))
      × Extended m
          (a ∷ next_position system.now m.source_wallet remainder ready.to_remainder ∷ [])
          m'
continuid_added system m m₁ source remainder a ready one =
    let b = next_position system.now m.source_wallet remainder ready.to_remainder in
    let start : atom_count m ≡ 0 = ap length ready.none_yet in
    let count : atom_count m₁ ≡ 1 =
      ap length one.at_end ∙ ap (λ l. length (l ++ (set_index a (length l) ∷ []))) ready.none_yet in
    let (m₂, e₂, two) = one_added system m₁ b one.still ready.memory (omega (arith, count)) in
    (
      m₂,
      add_continuid-created system m₁ remainder (one.wallets.1 ∙ ready.has_remainder)
          ∙ ap (λ w. add_created system m₁ (continuid_atom system.now w remainder)) one.wallets.0
          ∙ ap (add_created system m₁)
              (continuid_atom-next system.now m.source_wallet remainder ready.to_remainder)
          ∙ e₂,
      Extended-append m m₁ m₂ a (b ∷ []) one two,
    )

-- With memory, the two atoms are added.
pub build-Extended :
    (system : System) (m : Molecule) (source remainder : Wallet) (request : Request)
    (ready : Ready system m source remainder)
    → (m' : Molecule) × (build system m request ≡ (m', success))
      × Extended m
          (first_atom system.now source ready.from_source request
            ∷ next_position system.now m.source_wallet remainder ready.to_remainder
            ∷ [])
          m'
unfolding is_success
build-Extended system m source remainder request ready =
    let a = first_atom system.now source ready.from_source request in
    let start : atom_count m ≡ 0 = ap length ready.none_yet in
    let (m₁, e₁, one) = one_added system m a ready.ordered ready.memory (omega (arith, start)) in
    let (m₂, e₂, two) = continuid_added system m m₁ source remainder a ready one in
    (
      m₂,
      build-added system m source request ready.has_source
          ∙ ap (add_with_continuid system m)
              (created_for-first_atom system.now source ready.from_source request)
          ∙ ap (λ r. and_then r (add_continuid_atom system)) e₁
          ∙ e₂,
      two,
    )
