-- ===== src/Tests/Hashes.antt =====
-- The theorems on hashes at concrete inputs.
use knish_io_client_c.Errors.{ok}
use knish_io_client_c.Hex.{IsLowerHex}
use knish_io_client_c.MolecularHash.{
  hash_is_signable, signable_loop, enumerate_hash, normalize_hash, normalize_loop, pass, adjust,
  may_step, step,
}
use knish_io_client_c.MolecularHash.Enumerate.{
  enumerate_signable, enumerate_hash-hash_is_signable, enumerate_hash_injective,
}
use knish_io_client_c.MolecularHash.Normalize.{Normalized, normalize_hash_total}
use knish_io_client_c.MolecularHash.Steps.{
  StepCounts, signable-StepCounts, AtMost, signable_no_domination,
}
use knish_io_client_c.Shake256.{
  rate, init, update, absorb, absorb_byte, final, squeeze_hex, shake256_hash,
}
use knish_io_client_c.Shake256.Stream.{
  update_all, update_room, squeeze-update_all, shake256_hash_text,
}
use knish_io_client_c.Tests.Samples.{sample_hash}
use knish_io_client_c.Prelude.{
  ◌<◌, ◌≡◌, refl, ◌↔◌, true, some, List, [], ◌∷◌, Bytes, codes, length, All, none, int_max, sum_int,
  wrap_int, ◌+ℤ◌, ℤ, pos, ◌>>=◌, arith,
}

sample_signable : hash_is_signable (some sample_hash) ≡ true
unfolding hash_is_signable signable_loop
sample_signable = refl

signable-StepCounts_example : StepCounts sample_hash
signable-StepCounts_example = signable-StepCounts sample_hash sample_signable

never_more_often : (ns : List ℤ) → AtMost ns ns
never_more_often [] = tt
never_more_often (n ∷ ns) = (omega arith, never_more_often ns)

signable_no_domination_example :
    (signable-StepCounts sample_hash sample_signable).normalized
    ≡ (signable-StepCounts sample_hash sample_signable).normalized
signable_no_domination_example =
    signable_no_domination sample_hash sample_hash sample_signable sample_signable
      (never_more_often (signable-StepCounts sample_hash sample_signable).normalized)

enumerate_hash-hash_is_signable_example :
    (hash_is_signable (some sample_hash) ≡ true)
    ↔ ((vs : List ℤ) × (enumerate_hash (some sample_hash) ≡ ok vs))
enumerate_hash-hash_is_signable_example = enumerate_hash-hash_is_signable (some sample_hash)

enumerate_hash_injective_example : sample_hash ≡ sample_hash
enumerate_hash_injective_example =
    enumerate_hash_injective sample_hash sample_hash
      (enumerate_signable sample_hash sample_signable).values
      (enumerate_signable sample_hash sample_signable).enumerates
      (enumerate_signable sample_hash sample_signable).enumerates

normalize_hash_total_example :
    (ys : List ℤ) × (normalize_hash (pos 3 ∷ pos 0 ∷ []) ≡ some (ok ys))
    × Normalized (pos 3 ∷ pos 0 ∷ []) ys
normalize_hash_total_example =
    normalize_hash_total (pos 3 ∷ pos 0 ∷ []) (λ e. absurd (cc e)) (omega arith) (omega arith)

-- A sum that overflows makes a loop that does not end.
normalize_overflow : normalize_hash (pos int_max ∷ pos int_max ∷ []) ≡ none
unfolding normalize_hash sum_int wrap_int normalize_loop pass adjust may_step step ◌+ℤ◌
normalize_overflow = refl

update_sample : update init (codes "abc") ≡ some (record init { buffer = codes "abc" })
unfolding update absorb absorb_byte
update_sample = refl

update_room_example : 3 < rate
update_room_example =
    update_room init (record init { buffer = codes "abc" }) (codes "abc") (omega arith)
      update_sample

squeeze-update_all_example :
    (update_all init (codes "ab" ∷ codes "c" ∷ []) >>= final >>= λ c. squeeze_hex c 64)
    ≡ shake256_hash (codes "abc") 64
squeeze-update_all_example = squeeze-update_all (codes "ab" ∷ codes "c" ∷ []) 64

shake256_hash_text_example :
    (hex : Bytes) × (shake256_hash (codes "abc") 512 ≡ some hex)
    × (length hex ≡ 128)
    × All IsLowerHex hex
shake256_hash_text_example = shake256_hash_text (codes "abc") 512 (omega arith)
