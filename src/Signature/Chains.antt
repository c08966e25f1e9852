-- ===== src/Signature/Chains.antt =====
-- The chains that the signer starts (src/molecule.c) and the verifier ends
-- (src/libraries/check_molecule.c).
use knish_io_client_c.Check.{verify_chain, verify_loop}
use knish_io_client_c.Hex.{IsLowerHex}
use knish_io_client_c.MolecularHash.Normalize.{InRange}
use knish_io_client_c.MolecularHash.Steps.{sign_steps, verify_steps, steps_add}
use knish_io_client_c.Ots.Chains.{link, length-link, link-IsLowerHex, shake256_hash-link}
use knish_io_client_c.Shake256.Stream.{shake256_hash_raw-digest}
use knish_io_client_c.Signature.{sign_chain, sign_loop}
use knish_io_client_c.Prelude.{
  ℕ, zero, suc, ◌+◌, ◌*◌, ◌≤◌, ◌≡◌, refl, ap, ◌∙◌, sym, some, List, [], ◌∷◌, ◌++◌, append_assoc,
  Bytes, length, take, drop, get_or, iterate, iterate-iterate, concat, map, All, All-append,
  length-append, arith, take_append_length, drop_append_length, ℤ, pos,
}

sign_chain-iterate : (n : ℕ) (text : Bytes) → sign_chain n text ≡ some (iterate n link text)
unfolding sign_chain link
sign_chain-iterate zero text = refl
sign_chain-iterate (suc n) text =
    rw (sign_chain, shake256_hash_raw-digest text 64 (omega arith))
      (sign_chain-iterate n (link text))

verify_chain-iterate : (n : ℕ) (text : Bytes) → verify_chain n text ≡ some (iterate n link text)
unfolding verify_chain
verify_chain-iterate zero text = refl
verify_chain-iterate (suc n) text =
    rw (verify_chain, shake256_hash-link text) (verify_chain-iterate n (link text))

-- The segments of a signature.
abbrev pub signed_segments : List Bytes → List ℤ → List Bytes
signed_segments [] ns = []
signed_segments (c ∷ cs) [] = []
signed_segments (c ∷ cs) (n ∷ ns) = iterate (sign_steps n) link c ∷ signed_segments cs ns

pub sign_loop-segments :
    (cs : List Bytes) (ns : List ℤ) → sign_loop cs ns ≡ some (concat (signed_segments cs ns))
unfolding sign_loop
sign_loop-segments [] ns = refl
sign_loop-segments (c ∷ cs) [] = refl
sign_loop-segments (c ∷ cs) (n ∷ ns) =
    rw (sign_loop, sign_chain-iterate (sign_steps n) c, sign_loop-segments cs ns) refl

-- A segment: 128 lower-case hexadecimal characters.
abbrev pub IsSegment : Bytes → Type 0
IsSegment text = (length text ≡ 128) × All IsLowerHex text

iterate-IsSegment : (n : ℕ) (text : Bytes) → IsSegment text → IsSegment (iterate n link text)
iterate-IsSegment zero text h = h
iterate-IsSegment (suc n) text h =
    iterate-IsSegment n (link text) (length-link text, link-IsLowerHex text)

pub segments_joined :
    (cs : List Bytes) (ns : List ℤ)
    → All IsSegment cs
    → length cs ≤ length ns
    → (length (concat (signed_segments cs ns)) ≡ 128 * length cs)
      × All IsLowerHex (concat (signed_segments cs ns))
segments_joined [] ns h l = (omega arith, tt)
segments_joined (c ∷ cs) [] h l = absurd (omega arith)
segments_joined (c ∷ cs) (n ∷ ns) h l =
    let here = iterate-IsSegment (sign_steps n) c h.0 in
    let rest = segments_joined cs ns h.1 (omega arith) in
    let x = iterate (sign_steps n) link c in
    let xs = concat (signed_segments cs ns) in
    (omega (arith, length-append x xs, here.0, rest.0), All-append IsLowerHex x xs here.1 rest.1)

drop_step :
    (ns : List ℤ) (i : ℕ) (n : ℤ) (rest : List ℤ)
    → drop i ns ≡ n ∷ rest
    → (get_or ns i (pos 0) ≡ n) × (drop (i + 1) ns ≡ rest)
drop_step [] zero n rest e = absurd (cc e)
drop_step (m ∷ ns) zero n rest e = (cc, cc)
drop_step [] (suc i) n rest e = absurd (cc e)
drop_step (m ∷ ns) (suc i) n rest e =
    let (here, after) = drop_step ns i n rest e in
    let k : suc i + 1 ≡ suc (i + 1) = omega arith in (here, ap (λ j. drop j (m ∷ ns)) k ∙ after)

segment_at :
    (before x after : Bytes) (i : ℕ)
    → length before ≡ i * 128
    → length x ≡ 128
    → take 128 (drop (i * 128) (before ++ (x ++ after))) ≡ x
segment_at before x after i b l =
    rw (drop_append_length (i * 128) before (x ++ after) b) (take_append_length 128 x after l)

chain_end :
    (n : ℤ) (c : Bytes)
    → InRange n
    → verify_chain (verify_steps n) (iterate (sign_steps n) link c) ≡ some (iterate 16 link c)
chain_end n c r =
    verify_chain-iterate (verify_steps n) (iterate (sign_steps n) link c)
    ∙ ap some (
        iterate-iterate (sign_steps n) (verify_steps n) link c
        ∙ ap (λ k. iterate k link c) (steps_add n r))

-- The verifier goes on where the signer stopped: 16 rounds in all.
pub verify_loop-segments :
    (before : Bytes) (i : ℕ) (cs : List Bytes) (ns ms : List ℤ)
    → length before ≡ i * 128
    → drop i ms ≡ ns
    → All IsSegment cs
    → All InRange ns
    → length cs ≤ length ns
    → verify_loop (length cs) i (before ++ concat (signed_segments cs ns)) ms
      ≡ some (concat (map (iterate 16 link) cs))
unfolding verify_loop
verify_loop-segments before i [] ns ms b d h r l = refl
verify_loop-segments before i (c ∷ cs) [] ms b d h r l = absurd (omega arith)
verify_loop-segments before i (c ∷ cs) (n ∷ ns) ms b d h r l =
    let x = iterate (sign_steps n) link c in
    let xs = concat (signed_segments cs ns) in
    let here = (iterate-IsSegment (sign_steps n) c h.0).0 in
    let (value, after) = drop_step ms i n ns d in
    let size : length (before ++ x) ≡ (i + 1) * 128 = omega (arith, length-append before x) in
    let rest =
      verify_loop-segments (before ++ x) (i + 1) cs ns ms size after h.1 r.1 (omega arith) in
    let same : before ++ (x ++ xs) ≡ (before ++ x) ++ xs = sym (append_assoc before x xs) in
    rw (verify_loop, value, segment_at before x xs i b here, chain_end n c r.0, same, rest) refl
