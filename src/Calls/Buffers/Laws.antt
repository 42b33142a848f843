-- ===== src/Calls/Buffers/Laws.antt =====
-- What a range of a buffer holds after it was stored.
use lwt_old.Base.{
  take_exact, drop_exact, append_assoc, length-append, ℕ, zero, suc, ◌+◌, ◌≤◌, ◌≡◌, refl, ap, ◌∙◌,
  le→leb, List, [], ◌∷◌, ◌++◌, length as measure, take, drop, replicate, length-take, length-drop,
  length-replicate, update, arith,
}
use lwt_old.Base.Outcome.{ok}
use lwt_old.Jobs.{Mem, blit, slice}
use lwt_old.Jobs.ReadWrite.Laws.{memcpy_string_lem, store_bigarray_lem}
use lwt_old.Calls.Buffers.{blit_bytes_bytes, blit_string_bytes, blit_bytes_string, fill_bytes}

-- A buffer after `bytes` were stored from `ofs` on.
pub record Stored (buf : List ℕ) (ofs : ℕ) (bytes buf' : List ℕ) : Type 0 where
  pub before : take ofs buf' ≡ take ofs buf
  pub within : slice buf' ofs (measure bytes) ≡ bytes
  pub behind : drop (ofs + measure bytes) buf' ≡ drop (ofs + measure bytes) buf

pub slice-blit :
    (buf : List ℕ) (ofs n : ℕ) (bytes : List ℕ)
    → n ≡ measure bytes
    → ofs ≤ measure buf
    → slice (blit buf ofs bytes) ofs n ≡ bytes
slice-blit buf zero n bytes e h = take_exact bytes (drop (0 + measure bytes) buf) n e
slice-blit [] (suc ofs) n bytes e h = absurd (omega (arith, h))
slice-blit (x ∷ buf) (suc ofs) n bytes e h =
    ap (λ t. slice (take ofs buf ++ bytes ++ t) ofs n)
      (dropped (ofs + measure bytes) (suc ofs + measure bytes) (omega arith))
    ∙ slice-blit buf ofs n bytes e (omega (arith, h))
  where
    dropped : (a b : ℕ) → b ≡ suc a → drop b (x ∷ buf) ≡ drop a buf
    dropped a b e = ap (λ k. drop k (x ∷ buf)) e

pub length-slice :
    (buf : List ℕ) (ofs len : ℕ) → ofs + len ≤ measure buf → measure (slice buf ofs len) ≡ len
length-slice buf ofs len h = omega (arith, length-take len (drop ofs buf), length-drop ofs buf, h)

pub blit-Stored :
    (buf : List ℕ) (ofs : ℕ) (bytes : List ℕ)
    → ofs + measure bytes ≤ measure buf
    → Stored buf ofs bytes (blit buf ofs bytes)
blit-Stored buf ofs bytes h =
    let rest : List ℕ = drop (ofs + measure bytes) buf in
    let first : ofs ≡ measure (take ofs buf) = omega (arith, length-take ofs buf, h) in
    record {
      before =
          ap (take ofs) (append_assoc (take ofs buf) bytes rest)
          ∙ take_exact (take ofs buf) (bytes ++ rest) ofs first;
      within = slice-blit buf ofs (measure bytes) bytes refl (omega (arith, h));
      behind =
          drop_exact (take ofs buf ++ bytes) rest (ofs + measure bytes)
            (omega (arith, length-append (take ofs buf) bytes, first));
    }

module _ (buf1 ofs1 buf2 ofs2 len : ℕ) (m : Mem) where
  -- Where both ranges lie in their buffers: each of the three blits puts the bytes of the first
  -- range, as they were before, into the second one, also where the ranges overlap; every other
  -- byte and every other buffer stays as it was. `fill_bytes` puts the byte into each place of the
  -- second range, likewise.
  blits-Stored :
      (byte : ℕ)
      → ofs1 + len ≤ measure (m.bigarrays buf1)
      → ofs1 + len ≤ measure (m.strings buf1)
      → ofs2 + len ≤ measure (m.bigarrays buf2)
      → ofs2 + len ≤ measure (m.strings buf2)
      → ((buf : List ℕ) × Stored (m.bigarrays buf2) ofs2 (slice (m.bigarrays buf1) ofs1 len) buf
          × (blit_bytes_bytes buf1 ofs1 buf2 ofs2 len m
              ≡ ok tt (record m { bigarrays = update m.bigarrays buf2 buf })))
        × ((buf : List ℕ) × Stored (m.bigarrays buf2) ofs2 (slice (m.strings buf1) ofs1 len) buf
            × (blit_string_bytes buf1 ofs1 buf2 ofs2 len m
                ≡ ok tt (record m { bigarrays = update m.bigarrays buf2 buf })))
        × ((buf : List ℕ) × Stored (m.strings buf2) ofs2 (slice (m.bigarrays buf1) ofs1 len) buf
            × (blit_bytes_string buf1 ofs1 buf2 ofs2 len m
                ≡ ok tt (record m { strings = update m.strings buf2 buf })))
        × ((buf : List ℕ) × Stored (m.bigarrays buf2) ofs2 (replicate len byte) buf
            × (fill_bytes buf2 ofs2 len byte m
                ≡ ok tt (record m { bigarrays = update m.bigarrays buf2 buf })))
  unfolding blit_bytes_bytes blit_string_bytes blit_bytes_string fill_bytes
  blits-Stored byte in_bytes1 in_string1 in_bytes2 in_string2 =
      let some_bytes : ofs2 + measure (slice (m.bigarrays buf1) ofs1 len)
          ≤ measure (m.bigarrays buf2) =
        omega (arith, length-slice (m.bigarrays buf1) ofs1 len in_bytes1, in_bytes2) in
      let some_string : ofs2 + measure (slice (m.strings buf1) ofs1 len)
          ≤ measure (m.bigarrays buf2) =
        omega (arith, length-slice (m.strings buf1) ofs1 len in_string1, in_bytes2) in
      let to_string : ofs2 + measure (slice (m.bigarrays buf1) ofs1 len)
          ≤ measure (m.strings buf2) =
        omega (arith, length-slice (m.bigarrays buf1) ofs1 len in_bytes1, in_string2) in
      let filled : ofs2 + measure (replicate len byte) ≤ measure (m.bigarrays buf2) =
        omega (arith, length-replicate len byte, in_bytes2) in
      (
        (
          _,
          blit-Stored _ _ _ some_bytes,
          rw (le→leb _ _ in_bytes1) (store_bigarray_lem buf2 ofs2 _ m some_bytes),
        ),
        (
          _,
          blit-Stored _ _ _ some_string,
          rw (le→leb _ _ in_string1) (store_bigarray_lem buf2 ofs2 _ m some_string),
        ),
        (
          _,
          blit-Stored _ _ _ to_string,
          rw (le→leb _ _ in_bytes1) (memcpy_string_lem buf2 ofs2 _ m to_string),
        ),
        (_, blit-Stored _ _ _ filled, store_bigarray_lem buf2 ofs2 _ m filled),
      )
